-- ===== src/Auth/Reset/Forgot.antt =====
-- What the answer of ForgotPassword says of the accounts.
use o2ul_portal.Common.{
  ◌≢◌, String, false, ◌≡◌, refl, some, Option-cases, arith, eq_iff, ◌==◌, inl, inr, Result,
  Result-cases, ok, err, Error, ◌⊎◌, ◌+◌,
}
use o2ul_portal.Domain.Player.{Player}
use o2ul_portal.Accounts.{PasswordResetRepository}
use o2ul_portal.Auth.{
  Platform, Runtime, World, Email, AuthService, validate_smtp_config,
  validate_password_reset_dependencies,
}
use o2ul_portal.Auth.Sessions.{normalized_email}
use o2ul_portal.Auth.Reset.{
  forgot_password, deliver_token, request_token, new_reset_token, reset_email,
}

module _ {U S : Type 0} (env : Platform) (s : AuthService U S) where
  -- A part of the delivery of a token that failed with `e`: the random bytes, the store of tokens,
  -- or the email.
  abbrev pub DeliveryFails :
      PasswordResetRepository S
      → (Email → Result (Unit {0}))
      → Runtime
      → World U S
      → Player
      → Error
      → Type 0
  DeliveryFails resets send rt w player e =
      (rt.random_text ≡ err e)
      ⊎ ((raw_token : String) × (rt.random_text ≡ ok raw_token)
          × (((resets.create w.resets (new_reset_token env rt s.reset_token_ttl player raw_token)).0
                ≡ err e)
              ⊎ (send (
                    reset_email env s.smtp_from_email player raw_token (rt.now + s.reset_token_ttl))
                  ≡ err e)))

  deliver_token-cases :
      (resets : PasswordResetRepository S) (send : Email → Result (Unit {0})) (rt : Runtime)
      (w : World U S) (player : Player)
      → ((deliver_token env s resets send rt w player).0 ≡ ok tt)
        ⊎ ((e : Error) × ((deliver_token env s resets send rt w player).0 ≡ err e)
            × DeliveryFails resets send rt w player e)
  unfolding deliver_token
  deliver_token-cases resets send rt w player = elim (Result-cases (rt.random_text)) [
    | inr (x, e) ↦ inr (x, rw (e, deliver_token) refl, inl e)
    | inl (raw, e) ↦
        let token = new_reset_token env rt s.reset_token_ttl player raw in
        elim (Result-cases ((resets.create w.resets token).0)) [
          | inr (x, f) ↦ inr (x, rw (e, deliver_token) (rw f refl), inr (raw, e, inl f))
          | inl (_, f) ↦
              elim (Result-cases (
                send (reset_email env s.smtp_from_email player raw (rt.now + s.reset_token_ttl)))) [
                  | inr (x, g) ↦
                      inr (x, rw (e, deliver_token) (rw f (rw g refl)), inr (raw, e, inr g))
                  | inl (_, g) ↦ inl (rw (e, deliver_token) (rw f (rw g refl)))
                ]
        ]
  ]

  request_token-cases :
      (rt : Runtime) (w : World U S) (player : Player)
      → ((request_token env s rt w player).0 ≡ ok tt)
        ⊎ ((resets : PasswordResetRepository S) × (send : Email → Result (Unit {0})) × (e : Error)
            × (s.reset_repo ≡ some resets)
            × (s.email_sender ≡ some send)
            × DeliveryFails resets send rt w player e
            × ((request_token env s rt w player).0 ≡ err e)
            × (◌≡◌ {A = Result (Unit {0})} (ok tt) (ok tt)))
  unfolding request_token
  request_token-cases rt w player = elim (Option-cases (s.reset_repo)) [
    | inl e ↦ inl (rw (e, request_token) refl)
    | inr (resets, e) ↦ elim (Option-cases (s.email_sender)) [
      | inl f ↦ inl (rw (e, request_token) (rw f refl))
      | inr (send, f) ↦ elim (deliver_token-cases resets send rt w player) [
        | inl g ↦ inl (rw (e, request_token) (rw f g))
        | inr (x, g, fails) ↦
            inr (resets, send, x, e, f, fails, rw (e, request_token) (rw f g), refl)
      ]
    ]
  ]

  -- Of two emails that are not blank, one with an account and one without, ForgotPassword gives the
  -- same answer for both, unless the random bytes, the token store or the email sender fail for the
  -- first: then that one gets the error, and the other one is accepted. For the one without an
  -- account it stores and sends nothing.
  pub forgot_password-hides :
      (rt rt2 : Runtime) (w : World U S) (email unknown : String) (player : Player) (x : Error)
      → normalized_email env email ≢ ""
      → normalized_email env unknown ≢ ""
      → s.repo.by_email w.users (normalized_email env email) ≡ ok player
      → s.repo.by_email w.users (normalized_email env unknown) ≡ err x
      → let known = forgot_password env s rt w email in
        let other = forgot_password env s rt2 w unknown in
        ((known.0 ≡ other.0)
          ⊎ ((resets : PasswordResetRepository S) × (send : Email → Result (Unit {0})) × (e : Error)
              × (s.reset_repo ≡ some resets)
              × (s.email_sender ≡ some send)
              × DeliveryFails resets send rt w player e
              × (known.0 ≡ err e)
              × (other.0 ≡ ok tt)))
        × (other.1.users ≡ w.users)
        × (other.1.resets ≡ w.resets)
        × (other.1.outbox ≡ w.outbox)
  unfolding forgot_password
  forgot_password-hides rt rt2 w email unknown player x named unknown_named found missing =
      let plain : (normalized_email env email == "") ≡ false =
        ground (arith, eq_iff (normalized_email env email) "") in
      let other_plain : (normalized_email env unknown == "") ≡ false =
        ground (arith, eq_iff (normalized_email env unknown) "") in
      elim (Result-cases (validate_smtp_config s)) [
        | inr (y, e) ↦ rw (e, forgot_password) (inl refl, refl, refl, refl)
        | inl (_, e) ↦ elim (Result-cases (validate_password_reset_dependencies s)) [
          | inr (y, f) ↦ rw (e, forgot_password) (rw f (inl refl, refl, refl, refl))
          | inl (_, f) ↦
              rw (e, forgot_password)
                (rw f (
                  rw plain (
                    rw other_plain (
                      rw found (
                        rw (missing, forgot_password)
                          (request_token-cases rt w player, refl, refl, refl))))))
        ]
      ]
