-- ===== src/Http/Instances/Control.antt =====
-- Only the control token shuts down, by the same rule in both routers.
use o2ul_portal.Common.{
  String, true, false, ◌≡◌, refl, sym, ap, ◌∙◌, ◌↔◌, arith, eq_iff, ◌==◌, inl, inr, Bool-cases,
  Option-cases, is_blank, trim_space, is_space_code, strip_prefix,
}
use o2ul_portal.Http.Instances.{provided_token, shutdown, has_control_token}

empty_blank : is_blank "" ≡ true
unfolding trim_space is_space_code
empty_blank = refl

not_empty_of_not_blank : (token : String) → is_blank token ≡ false → ("" == token) ≡ false
not_empty_of_not_blank token h = elim (Bool-cases ("" == token)) [
  | inr e ↦ e
  | inl e ↦
      let blank : is_blank token ≡ true = ap is_blank (sym ((eq_iff "" token).0 e)) ∙ empty_blank in
      cc
]

-- Both routers use one rule: a request shuts the service down exactly if a token is configured that
-- is not blank, and the token given in X-Orchestrator-Token, or without it as a bearer token, is that
-- token.
pub shutdown_iff :
    (control_token x_token authorization : String)
    → ((shutdown control_token x_token authorization).1
        ≡ has_control_token control_token x_token authorization)
      × ((has_control_token control_token x_token authorization ≡ true) ↔ (
          (is_blank control_token ≡ false)
          × (provided_token x_token authorization ≡ control_token)))
unfolding shutdown has_control_token provided_token
shutdown_iff control_token x_token authorization =
    let x = trim_space x_token in
    elim (Bool-cases (is_blank control_token)) [
      | inl a ↦ (ground arith, ((λ h. ground arith), λ h. ground arith))
      | inr a ↦
          let empty = not_empty_of_not_blank control_token a in
          elim (Bool-cases (x == "")) [
            | inr b ↦ (
              ground (arith, eq_iff x control_token),
              (
                (λ h. ground (arith, eq_iff x control_token)),
                λ h. ground (arith, eq_iff x control_token),
              ),
            )
            | inl b ↦ elim (Option-cases (strip_prefix "Bearer " (trim_space authorization))) [
              | inl c ↦ (
                ground (arith, eq_iff "" control_token),
                (
                  (λ h. ground (arith, eq_iff "" control_token)),
                  λ h. ground (arith, eq_iff "" control_token),
                ),
              )
              | inr (t, c) ↦
                  let token = trim_space t in
                  (
                    ground (
                      arith,
                      eq_iff token control_token,
                      eq_iff token "",
                      eq_iff "" control_token,
                    ),
                    (
                      (λ h. ground (arith, eq_iff token control_token)),
                      λ h. ground (arith, eq_iff token control_token),
                    ),
                  )
            ]
          ]
    ]
