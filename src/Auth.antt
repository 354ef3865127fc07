-- ===== src/Auth.antt =====
-- `AuthService` (internal/application/auth_service.go). A call gets a `Runtime`: the clock, the
-- fresh values and the outcomes of hashing and of the email sender that it meets. A service
-- without a user repository, with which every operation panics, is not modelled.
use o2ul_portal.Common.{
  ℕ, ◌+◌, ◌*◌, String, Bool, true, false, ◌≡◌, ◌&&◌, ◌||◌, not, Option, none, some, List, [], ◌∷◌,
  ◌++◌, ◌==◌, is_empty, is_blank, is_nil, concat, trim_space, to_lower, if◌then◌else◌, Result, ok,
  err, message, Error, fail_if, ◌>>◌, ◌>>=◌, ltb,
}
use Prim.Native.Char.{Char}
use o2ul_portal.Common.Int.{ℤ, pos, pos_part, ltb_ℤ}
use o2ul_portal.Domain.Role.{normalize_role, is_valid_role, role_registered}
use o2ul_portal.Domain.Player.{Player, PasswordResetToken}
use o2ul_portal.Store.{Value, text, flag}
use o2ul_portal.Log.{Field, Log, info}
use o2ul_portal.Accounts.{UserRepository, PasswordResetRepository}
pub mod Sessions
pub mod Reset

-- golang.org/x/crypto/bcrypt with a salt, crypto/sha256 printed in hexadecimal, the lower case of
-- runes beyond ASCII, time.Format, and the token service.
pub record Platform : Type 0 where
  pub bcrypt_hash : String → String → Result String
  pub bcrypt_matches : String → String → Bool
  pub sha256_hex : String → String
  pub lower_beyond_ascii : Char → Char
  pub format_rfc3339 : ℕ → String
  pub issue : ℕ → Player → Result String

-- What one call meets: its first and its later reading of the clock, uuid.NewString, the salt, and rand.Read encoded in base64.
pub record Runtime : Type 0 where
  pub now : ℕ
  pub later : ℕ
  pub uuid : String
  pub salt : String
  pub random_text : Result String

pub record Email : Type 0 where
  pub sender : String
  pub receiver : String
  pub subject : String
  pub body : String

-- The repositories' states, the emails that were sent, and the log.
pub record World (U S : Type 0) : Type 0 where
  pub users : U
  pub resets : S
  pub outbox : List Email
  pub log : Log

pub record AuthService (U S : Type 0) : Type 0 where
  pub repo : UserRepository U
  pub reset_repo : Option (PasswordResetRepository S)
  -- the outcome of EmailSender.Send
  pub email_sender : Option (Email → Result (Unit {0}))
  pub enforce_smtp : Bool
  pub smtp_host : String
  pub smtp_port : String
  pub smtp_username : String
  pub smtp_password : String
  pub smtp_from_email : String
  pub reset_token_ttl : ℕ

-- `s.logs.Info`
abbrev pub logged : {U S : Type 0} → String → List (String × Field) → World U S → World U S
logged name fields w = record w { log = info name fields w.log }

-- strings.Join
unfoldable pub join : String → List String → String
join separator [] = ""
join separator (s ∷ []) = s
join separator (s ∷ t ∷ ss) = concat s (concat separator (join separator (t ∷ ss)))

abbrev pub thirty_minutes : ℕ
thirty_minutes = 30 * 60 * 1000000000

abbrev pub when : Bool → List String → List String
when b names = if b then names else []

abbrev pub not_configured : Error
not_configured = message "password reset dependencies are not configured"

module _ {U S : Type 0} where
  unfoldable pub new_auth_service : UserRepository U → AuthService U S
  new_auth_service repo = record {
    repo = repo;
    reset_repo = none;
    email_sender = none;
    enforce_smtp = false;
    smtp_host = "";
    smtp_port = "";
    smtp_username = "";
    smtp_password = "";
    smtp_from_email = "";
    reset_token_ttl = thirty_minutes;
  }

  abbrev pub with_password_reset :
      PasswordResetRepository S → (Email → Result (Unit {0})) → AuthService U S → AuthService U S
  with_password_reset reset_repo email_sender s = record s {
    reset_repo = some reset_repo;
    email_sender = some email_sender;
  }

  unfoldable pub with_password_reset_token_ttl : ℤ → AuthService U S → AuthService U S
  with_password_reset_token_ttl ttl s =
      if ltb_ℤ (pos 0) ttl then record s { reset_token_ttl = pos_part ttl } else s

  unfoldable pub with_smtp_config :
      String → String → String → String → String → AuthService U S → AuthService U S
  with_smtp_config host port username password sender s = record s {
    enforce_smtp = true;
    smtp_host = trim_space host;
    smtp_port = trim_space port;
    smtp_username = trim_space username;
    smtp_password = password;
    smtp_from_email = trim_space sender;
  }

  unfoldable pub missing_settings : AuthService U S → List String
  missing_settings s =
      when (s.smtp_host == "") ("SMTP_HOST" ∷ [])
      ++ when (s.smtp_port == "") ("SMTP_PORT" ∷ [])
      ++ when (s.smtp_username == "") ("SMTP_USERNAME" ∷ [])
      ++ when (trim_space s.smtp_password == "") ("SMTP_PASSWORD" ∷ [])
      ++ when (s.smtp_from_email == "") ("SMTP_FROM" ∷ [])

  unfoldable pub validate_smtp_config : AuthService U S → Result (Unit {0})
  validate_smtp_config s =
      let missing = missing_settings s in
      fail_if (s.enforce_smtp && not (is_nil missing))
        (message (concat "smtp config required for auth flows: missing " (join ", " missing)))

  abbrev pub is_configured : AuthService U S → Bool
  is_configured s = elim (s.reset_repo) [
    | none ↦ false
    | some r ↦ elim (s.email_sender) [ none ↦ false | some m ↦ true ]
  ]

  unfoldable pub validate_password_reset_dependencies : AuthService U S → Result (Unit {0})
  validate_password_reset_dependencies s =
      fail_if (s.enforce_smtp && not (is_configured s)) not_configured

-- bcrypt accepts the password that it hashed, whatever the salt.
abbrev pub IsBcrypt : Platform → Type 0
IsBcrypt env =
    (salt password hash : String)
    → env.bcrypt_hash salt password ≡ ok hash
    → env.bcrypt_matches hash password ≡ true
