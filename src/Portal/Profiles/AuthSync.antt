-- ===== src/Portal/Profiles/AuthSync.antt =====
-- `O2ULAuthSyncService` (internal/application/o2ul_authsync_service.go).
use o2ul_portal.Common.{
  String, true, false, ◌==◌, is_empty, is_blank, if◌then◌else◌, Result, ok, err, message,
}
use o2ul_portal.Common.Int.{ℤ}
use o2ul_portal.Domain.Player.{Player}
use o2ul_portal.Accounts.{UserRepository}
use o2ul_portal.Portal.Profiles.{Profile, ProfileRepository}
use o2ul_portal.Portal.Profiles.Users.{profile_of, touched}

abbrev pub sign_in : String
sign_in = "signIn"

abbrev pub sign_out : String
sign_out = "signOut"

abbrev or_else : String → String → String
or_else s fallback = if is_empty s then fallback else s

-- the profile before the action, its empty fields filled in from the user
unfoldable pub synced : ℤ → String → Player → Profile → Profile
synced now caller_id user profile = touched now (record profile {
  player_id = caller_id;
  username = or_else profile.username user.username;
  name = or_else profile.name user.username;
  email = or_else profile.email user.email;
  last_seen_unix = now;
})

-- the `switch` on the action
unfoldable pub apply_action : ℤ → String → Profile → Result Profile
apply_action now action profile =
    if action == sign_in
    then ok (record profile { is_online = true; last_login_date_unix = now })
    else if action == sign_out
    then ok (record profile { is_online = false })
    else err (message "invalid action")

-- the outcome of `s.profiles.Upsert`
unfoldable pub finish_sync : {S : Type 0} → String → Result Profile × S → Result String × S
finish_sync caller_id (ok p, t) = (ok caller_id, t)
finish_sync caller_id (err e, t) = (err e, t)

module _ {U S : Type 0} (users : UserRepository U) (profiles : ProfileRepository S) where
  unfoldable pub sync_profile : U → S → ℤ → String → String → Result String × S
  sync_profile u s now caller_id action =
      if is_blank caller_id
      then (err (message "missing caller id"), s)
      else elim (users.by_id u caller_id) [
        | err e ↦ (err e, s)
        | ok user ↦
            elim (apply_action now action
              (synced now caller_id user (profile_of users profiles s caller_id))) [
                | err e ↦ (err e, s)
                | ok profile ↦ finish_sync caller_id (profiles.upsert s profile)
              ]
      ]
