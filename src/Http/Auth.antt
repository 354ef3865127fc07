-- ===== src/Http/Auth.antt =====
-- `AuthHandler` (internal/infrastructure/http/handlers/auth_handler.go). The middleware of the routes
-- of Me and Refresh gives the claims.
use Prim.Native.Char.{Char}
use o2ul_portal.Common.{
  ℕ, String, Bool, true, false, not, none, some, ◌==◌, if◌then◌else◌, Result, ok, err, Error,
  message,
}
use o2ul_portal.Domain.Role.{Role, parse_role, role_registered}
use o2ul_portal.Domain.Player.{Player}
use o2ul_portal.Auth.{Platform, Runtime, World, AuthService}
use o2ul_portal.Auth.Sessions
use o2ul_portal.Auth.Reset
use o2ul_portal.Http.{Response, failed, json, refuse, TokenClaims, Claims}
use o2ul_portal.Http.Middleware.{Handler}
pub mod Registration

pub record RegisterReq : Type 0 where
  pub email : String
  pub username : String
  pub password : String
  pub role : String

pub record LoginReq : Type 0 where
  pub email : String
  pub password : String

pub record ResetPasswordReq : Type 0 where
  pub token : String
  pub password : String

-- The payload `{"token": token, "player": p}`
pub record Session : Type 0 where
  pub token : String
  pub player : Player

-- the role that Register passes on, or the text of its refusal
unfoldable pub requested_role : (Char → Char) → String → Result Role
requested_role beyond_ascii raw =
    let (parsed, valid) = parse_role beyond_ascii raw in
    if raw == ""
    then ok role_registered
    else if not valid
    then err (message "invalid role")
    else if not (parsed == role_registered)
    then err (message "register role must be registered")
    else ok parsed

-- the answer with a session, or with an error and its status
abbrev pub session_answer :
    ℕ → (Error → Response Session) → Result (Player × String) → Response Session
session_answer status refused (err e) = refused e
session_answer status refused (ok (player, token)) =
    json status (record { token = token; player = player })

-- the answer `{"ok": true}`, or an error
abbrev pub accepted_answer : Result (Unit {0}) → Response (Unit {0})
accepted_answer (err e) = failed 400 e
accepted_answer (ok done) = json 202 tt

module _ {U S : Type 0} (env : Platform) (s : AuthService U S) where
  unfoldable pub register : Runtime → Result RegisterReq → World U S → Response Session × World U S
  register rt (err e) w = (refuse 400 "invalid payload", w)
  register rt (ok req) w = elim (requested_role env.lower_beyond_ascii req.role) [
    | err e ↦ (failed 400 e, w)
    | ok role ↦
        let (made, t) = Sessions.register env s rt w req.email req.username req.password role in
        (session_answer 201 (failed 400) made, t)
  ]

  unfoldable pub login : Runtime → Result LoginReq → World U S → Response Session × World U S
  login rt (err e) w = (refuse 400 "invalid payload", w)
  login rt (ok req) w =
      let (made, t) = Sessions.login env s rt w req.email req.password in
      (session_answer 200 (λ e. refuse 401 "invalid credentials") made, t)

  unfoldable pub me : Handler Player (World U S)
  me none w = (refuse 401 "missing claims", w)
  me (some claims) w = elim (s.repo.by_id w.users claims.player_id) [
    | err e ↦ (refuse 404 "not found", w)
    | ok player ↦ (json 200 player, w)
  ]

  -- the decoded body is the email
  unfoldable pub forgot_password :
      Runtime → Result String → World U S → Response (Unit {0}) × World U S
  forgot_password rt (err e) w = (refuse 400 "invalid payload", w)
  forgot_password rt (ok email) w =
      let (done, t) = Reset.forgot_password env s rt w email in (accepted_answer done, t)

  unfoldable pub reset_password :
      Runtime → Result ResetPasswordReq → World U S → Response (Unit {0}) × World U S
  reset_password rt (err e) w = (refuse 400 "invalid payload", w)
  reset_password rt (ok req) w =
      let (done, t) = Reset.reset_password env s rt w req.token req.password in
      (accepted_answer done, t)

  unfoldable pub refresh : Runtime → Handler Session (World U S)
  refresh rt none w = (refuse 401 "missing claims", w)
  refresh rt (some claims) w =
      let (made, t) = Sessions.refresh_token env s rt w claims.player_id in
      (session_answer 200 (failed 401) made, t)
