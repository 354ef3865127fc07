-- ===== src/Auth/Reset.antt =====
-- `ForgotPassword` and `ResetPassword`.
use o2ul_portal.Common.{
  ℕ, ◌+◌, String, Bool, true, false, ◌||◌, not, Option, none, some, List, [], ◌∷◌, ◌++◌, ◌==◌,
  is_blank, concat, if◌then◌else◌, Result, ok, err, message, Error, fail_if, ◌>>◌,
}
use o2ul_portal.Domain.Player.{Player, PasswordResetToken}
use o2ul_portal.Store.{Value, text, flag}
use o2ul_portal.Log.{Field, value}
use o2ul_portal.Accounts.{UserRepository, PasswordResetRepository}
use o2ul_portal.Auth.{
  Platform, Runtime, World, Email, AuthService, logged, validate_smtp_config,
  validate_password_reset_dependencies, not_configured, is_configured,
}
use o2ul_portal.Auth.Sessions.{normalized_email}
pub mod Once
pub mod Forgot

abbrev pub requested : String
requested = "password_reset_requested"

abbrev pub reset_email : Platform → String → Player → String → ℕ → Email
reset_email env sender player raw_token expires_at = record {
  sender = sender;
  receiver = player.email;
  subject = "Password reset request";
  body =
      concat "Use this reset token to set a new password. Token: "
        (concat raw_token (concat "\nExpiresAt: " (env.format_rfc3339 expires_at)));
}

-- the token that ForgotPassword stores
abbrev pub new_reset_token : Platform → Runtime → ℕ → Player → String → PasswordResetToken
new_reset_token env rt ttl player raw_token = record {
  id = rt.uuid;
  player_id = player.id;
  token_hash = env.sha256_hex raw_token;
  expires_at = rt.now + ttl;
  created_at = rt.now;
  used = false;
  used_at = 0;
}

module _ {U S : Type 0} (env : Platform) (s : AuthService U S) where
  -- what ForgotPassword does with the repositories that are configured, once the player is known
  unfoldable pub deliver_token :
      PasswordResetRepository S
      → (Email → Result (Unit {0}))
      → Runtime
      → World U S
      → Player
      → Result (Unit {0}) × World U S
  deliver_token resets send rt w player = elim (rt.random_text) [
    | err e ↦ (err e, w)
    | ok raw_token ↦
        let token = new_reset_token env rt s.reset_token_ttl player raw_token in
        let (created, t) = resets.create w.resets token in
        let mail = reset_email env s.smtp_from_email player raw_token token.expires_at in
        elim created [
          | err e ↦ (err e, record w { resets = t })
          | ok u ↦ elim (send mail) [
            | err e ↦ (err e, record w { resets = t })
            | ok u ↦ (
              ok tt,
              logged requested
                  (("playerId", value (text player.id)) ∷ ("found", value (flag true)) ∷ [])
                  (record w { resets = t; outbox = w.outbox ++ mail ∷ [] }),
            )
          ]
        ]
  ]

  -- what ForgotPassword does for a player that it found
  unfoldable pub request_token : Runtime → World U S → Player → Result (Unit {0}) × World U S
  request_token rt w player =
      let disabled =
        logged requested
          (("playerId", value (text player.id))
            ∷ ("found", value (flag true))
            ∷ ("delivery", value (text "disabled"))
            ∷ [])
          w in
      elim (s.reset_repo) [
        | none ↦ (ok tt, disabled)
        | some resets ↦ elim (s.email_sender) [
          | none ↦ (ok tt, disabled)
          | some send ↦ deliver_token resets send rt w player
        ]
      ]

  unfoldable pub forgot_password : Runtime → World U S → String → Result (Unit {0}) × World U S
  forgot_password rt w email =
      let norm_email = normalized_email env email in
      elim (validate_smtp_config s
        >> (validate_password_reset_dependencies s
            >> fail_if (norm_email == "") (message "email is required"))) [
              | err e ↦ (err e, w)
              | ok u ↦ elim (s.repo.by_email w.users norm_email) [
                | err e ↦ (
                  ok tt,
                  logged requested
                      (("email", value (text norm_email)) ∷ ("found", value (flag false)) ∷ []) w,
                )
                | ok player ↦ request_token rt w player
              ]
            ]

  -- the checks of ResetPassword before it looks at the token
  unfoldable pub check_reset : String → String → Result (PasswordResetRepository S)
  check_reset raw_token new_password =
      fail_if (is_blank raw_token || is_blank new_password)
        (message "token and password are required")
      >> (validate_password_reset_dependencies s >> elim (s.reset_repo) [
        | none ↦ err not_configured
        | some resets ↦
            fail_if (not (is_configured s)) not_configured >> (validate_smtp_config s >> ok resets)
      ])

  -- the writes of ResetPassword: the new password, and then the mark on the token
  unfoldable pub write_reset :
      PasswordResetRepository S
      → ℕ
      → World U S
      → PasswordResetToken
      → String
      → Result (Unit {0}) × World U S
  write_reset resets now w token hash =
      let (updated, users) = s.repo.update_password w.users token.player_id hash now in
      let (marked, states) = resets.mark_used w.resets token.id now in
      elim updated [
        | err e ↦ (err e, record w { users = users })
        | ok u ↦ elim marked [
          | err e ↦ (err e, record w { users = users; resets = states })
          | ok u ↦ (
            ok tt,
            logged "password_reset_completed" (("playerId", value (text token.player_id)) ∷ [])
                (record w { users = users; resets = states }),
          )
        ]
      ]

  unfoldable pub reset_password :
      Runtime → World U S → String → String → Result (Unit {0}) × World U S
  reset_password rt w raw_token new_password = elim (check_reset raw_token new_password) [
    | err e ↦ (err e, w)
    | ok resets ↦ elim (resets.get_valid_by_hash w.resets (env.sha256_hex raw_token) rt.now) [
      | err e ↦ (err (message "invalid or expired reset token"), w)
      | ok token ↦ elim (env.bcrypt_hash rt.salt new_password) [
        | err e ↦ (err e, w)
        | ok hash ↦ write_reset resets rt.later w token hash
      ]
    ]
  ]
