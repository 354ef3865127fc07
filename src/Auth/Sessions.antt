-- ===== src/Auth/Sessions.antt =====
-- `Register`, `Login` and `RefreshToken`.
use Prim.Native.Char.{Char}
use o2ul_portal.Common.{
  ℕ, String, Bool, true, false, ◌||◌, not, List, [], ◌∷◌, ◌==◌, is_blank, trim_space, to_lower,
  if◌then◌else◌, Result, ok, err, message, fail_if, ◌>>◌,
}
use o2ul_portal.Domain.Role.{normalize_role, is_valid_role, role_registered}
use o2ul_portal.Domain.Player.{Player}
use o2ul_portal.Store.{Value, text, flag}
use o2ul_portal.Log.{Field, value}
use o2ul_portal.Accounts.{UserRepository}
use o2ul_portal.Auth.{Platform, Runtime, World, AuthService, logged, validate_smtp_config}
pub mod Login

abbrev pub normalized_email : Platform → String → String
normalized_email env email = to_lower env.lower_beyond_ascii (trim_space email)

-- the role that Register gives: an empty one reads as registered
abbrev pub registered_role : String → String
registered_role role = normalize_role (if role == "" then role_registered else role)

-- `s.token.Issue(player)` and the log entry, the end of all three operations
unfoldable pub finish_session :
    {U S : Type 0}
    → Platform
    → Runtime
    → String
    → List (String × Field)
    → Player
    → World U S
    → Result (Player × String) × World U S
finish_session env rt name fields player w = elim (env.issue rt.now player) [
  | err e ↦ (err e, w)
  | ok token ↦ (ok (player, token), logged name fields w)
]

-- the checks of Register, and the player that it creates
unfoldable pub new_player : Platform → Runtime → String → String → String → String → Result Player
new_player env rt email username password role =
    let norm_email = normalized_email env email in
    let norm_user = trim_space username in
    fail_if (norm_email == "" || norm_user == "" || password == "")
      (message "email, username, and password are required")
    >> (fail_if (not (is_valid_role (registered_role role))) (message "invalid role")
        >> elim (env.bcrypt_hash rt.salt password) [
          | err e ↦ err e
          | ok hash ↦ ok (record {
            id = rt.uuid;
            email = norm_email;
            username = norm_user;
            password_hash = hash;
            role = registered_role role;
            created_at = rt.now;
            updated_at = rt.now;
          })
        ])

-- what Register does with the outcome of `s.repo.Create`
unfoldable pub finish_registration :
    {U S : Type 0}
    → Platform
    → Runtime
    → World U S
    → Result Player × U
    → Result (Player × String) × World U S
finish_registration env rt w (err e, users) = (err e, record w { users = users })
finish_registration env rt w (ok created, users) =
    finish_session env rt "player_registered"
      (("playerId", value (text created.id)) ∷ ("role", value (text created.role)) ∷ []) created
      (record w { users = users })

module _ {U S : Type 0} (env : Platform) (s : AuthService U S) where
  unfoldable pub register :
      Runtime → World U S → String → String → String → String → Result (Player × String) × World U S
  register rt w email username password role =
      elim (validate_smtp_config s >> new_player env rt email username password role) [
        | err e ↦ (err e, w)
        | ok player ↦ finish_registration env rt w (s.repo.create w.users player)
      ]

  -- the player whose email and password these are
  unfoldable pub authenticate : World U S → String → String → Result Player
  authenticate w email password = elim (s.repo.by_email w.users (normalized_email env email)) [
    | err e ↦ err (message "invalid credentials")
    | ok player ↦
        fail_if (not (env.bcrypt_matches player.password_hash password))
          (message "invalid credentials")
        >> ok player
  ]

  unfoldable pub login :
      Runtime → World U S → String → String → Result (Player × String) × World U S
  login rt w email password = elim (authenticate w email password) [
    | err e ↦ (err e, w)
    | ok player ↦
        finish_session env rt "player_logged_in" (("playerId", value (text player.id)) ∷ []) player
          w
  ]

  unfoldable pub refresh_token : Runtime → World U S → String → Result (Player × String) × World U S
  refresh_token rt w player_id =
      if is_blank player_id
      then (err (message "player id is required"), w)
      else elim (s.repo.by_id w.users player_id) [
        | err e ↦ (err (message "invalid token subject"), w)
        | ok player ↦
            finish_session env rt "auth_token_refreshed" (("playerId", value (text player.id)) ∷ [])
              player w
      ]
