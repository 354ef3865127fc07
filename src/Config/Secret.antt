-- ===== src/Config/Secret.antt =====
-- When a process refuses to start for its secret.
use Prim.Native.Char.{Char}
use o2ul_portal.Common.{
  String, true, ◌≡◌, refl, ◌↔◌, eq_iff, ◌==◌, arith, inl, inr, ◌⊎◌, Bool-cases, to_lower,
  lower_rune, trim_space, is_space_code,
}
use o2ul_portal.Config.{env, is_development_env, config_of, aborted, load_for}

development_is : (beyond_ascii : Char → Char) → is_development_env beyond_ascii "development" ≡ true
unfolding is_development_env to_lower lower_rune trim_space is_space_code
development_is beyond_ascii = refl

secret_iff :
    (getenv : String → String)
    → (env getenv "JWT_SECRET" "replace-me" ≡ "replace-me")
      ↔ ((getenv "JWT_SECRET" ≡ "") ⊎ (getenv "JWT_SECRET" ≡ "replace-me"))
unfolding env
secret_iff getenv = elim (Bool-cases (getenv "JWT_SECRET" == "")) [
  | inl a ↦ rw a (λ h. inl ((eq_iff (getenv "JWT_SECRET") "").0 a), λ h. refl)
  | inr a ↦ rw a (
    λ h. inr h,
    λ h. elim h [ inl e ↦ absurd (cc (a, (eq_iff (getenv "JWT_SECRET") "").1 e)) | inr e ↦ e ],
  )
]

development_iff :
    (beyond_ascii : Char → Char) (getenv : String → String)
    → (is_development_env beyond_ascii (env getenv "APP_ENV" "development") ≡ true)
      ↔ ((getenv "APP_ENV" ≡ "") ⊎ (is_development_env beyond_ascii (getenv "APP_ENV") ≡ true))
unfolding env
development_iff beyond_ascii getenv = elim (Bool-cases (getenv "APP_ENV" == "")) [
  | inl a ↦ rw a (λ h. inl ((eq_iff (getenv "APP_ENV") "").0 a), λ h. development_is beyond_ascii)
  | inr a ↦ rw a (
    λ h. inr h,
    λ h. elim h [ inl e ↦ absurd (cc (a, (eq_iff (getenv "APP_ENV") "").1 e)) | inr e ↦ e ],
  )
]

aborted_iff :
    (beyond_ascii : Char → Char) (getenv : String → String) (env_file_path : String)
    → (load_for beyond_ascii getenv env_file_path ≡ aborted) ↔ (
        (env getenv "JWT_SECRET" "replace-me" ≡ "replace-me")
        × (is_development_env beyond_ascii (env getenv "APP_ENV" "development") ≡ true))
unfolding load_for config_of
aborted_iff beyond_ascii getenv env_file_path =
    let secret = env getenv "JWT_SECRET" "replace-me" in
    let app_env = env getenv "APP_ENV" "development" in
    elim (Bool-cases (secret == "replace-me")) [
      | inr a ↦ (λ h. cc, λ h. absurd (cc (a, (eq_iff secret "replace-me").1 (h.0))))
      | inl a ↦ elim (Bool-cases (is_development_env beyond_ascii app_env)) [
        | inr b ↦ (λ h. cc, λ h. absurd (cc (b, h.1)))
        | inl b ↦ (λ h. ((eq_iff secret "replace-me").0 a, b), λ h. rw (a, load_for) (rw b refl))
      ]
    ]

-- the names of a development environment, with spaces and case put aside
names_iff :
    (beyond_ascii : Char → Char) (app_env : String)
    → (is_development_env beyond_ascii app_env ≡ true) ↔ (
        (to_lower beyond_ascii (trim_space app_env) ≡ "dev")
        ⊎ (to_lower beyond_ascii (trim_space app_env) ≡ "development")
        ⊎ (to_lower beyond_ascii (trim_space app_env) ≡ "local"))
unfolding is_development_env
names_iff beyond_ascii app_env =
    let v = to_lower beyond_ascii (trim_space app_env) in
    (
      λ h. ground (arith, eq_iff v "dev", eq_iff v "development", eq_iff v "local"),
      λ h. ground (arith, eq_iff v "dev", eq_iff v "development", eq_iff v "local"),
    )

-- LoadFor aborts exactly if the JWT secret is not set or has its default value, and the environment
-- is development: APP_ENV is not set, or it is one of dev, development and local once the spaces
-- around it are cut off and its letters are in lower case. In every other environment the default secret is accepted.
pub load_for_aborted_iff :
    (beyond_ascii : Char → Char) (getenv : String → String) (env_file_path : String)
    → (load_for beyond_ascii getenv env_file_path ≡ aborted) ↔ (
        ((getenv "JWT_SECRET" ≡ "") ⊎ (getenv "JWT_SECRET" ≡ "replace-me"))
        × ((getenv "APP_ENV" ≡ "")
            ⊎ (to_lower beyond_ascii (trim_space (getenv "APP_ENV")) ≡ "dev")
            ⊎ (to_lower beyond_ascii (trim_space (getenv "APP_ENV")) ≡ "development")
            ⊎ (to_lower beyond_ascii (trim_space (getenv "APP_ENV")) ≡ "local")))
load_for_aborted_iff beyond_ascii getenv env_file_path =
    let stops = aborted_iff beyond_ascii getenv env_file_path in
    let names = names_iff beyond_ascii (getenv "APP_ENV") in
    (
      λ h.
          let (secret, dev) = stops.0 h in
          (
            (secret_iff getenv).0 secret,
            elim ((development_iff beyond_ascii getenv).0 dev) [
              | inl unset ↦ inl unset
              | inr named ↦ inr (names.0 named)
            ],
          ),
      λ (secret, dev). stops.1 (
        (secret_iff getenv).1 secret,
        (development_iff beyond_ascii getenv).1
            (elim dev [ inl unset ↦ inl unset | inr named ↦ inr (names.1 named) ]),
      ),
    )
