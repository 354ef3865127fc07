-- ===== src/Tests/Sessions.antt =====
-- Registration, login and password reset over one-row tables.
use o2ul_portal.Common.{
  ℕ, ◌≡◌, refl, ◌≢◌, String, true, false, none, some, Option, [], arith, eq_iff, ◌==◌, lookup,
  concat, ok, err, Result, ◌⊎◌, Error, message, trim_space, is_space_code, to_lower,
}
use o2ul_portal.Domain.Role.{is_valid_role, normalize_role}
use o2ul_portal.Domain.Player.{Player, PasswordResetToken}
use o2ul_portal.Accounts.{IsUserRepository, PasswordResetRepository}
use o2ul_portal.Accounts.Users.{
  UserRecord, to_user_record, strata_users, create, by_email, update_password,
}
use o2ul_portal.Accounts.Resets.{
  PasswordResetTokenRecord, strata_resets, get_valid_by_hash, mark_used,
}
use o2ul_portal.Auth.{
  Platform, Runtime, World, Email, AuthService, new_auth_service, with_password_reset, IsBcrypt,
  validate_smtp_config, missing_settings, validate_password_reset_dependencies,
}
use o2ul_portal.Auth.Sessions.{
  normalized_email, finish_session, finish_registration, new_player, register, authenticate, login,
}
use o2ul_portal.Auth.Sessions.Login.{register-login}
use o2ul_portal.Auth.Reset.{check_reset, write_reset, reset_password, forgot_password}
use o2ul_portal.Auth.Reset.Forgot.{forgot_password-hides, DeliveryFails}
use o2ul_portal.Auth.Reset.Once.{reset_password-authenticate}
use o2ul_portal.Tests.OneRow.{one_get, one_set, one_search}
use o2ul_portal.Tests.Accounts.{user_table, reset_table, users-IsUserRepository}

abbrev pub env : Platform
env = record {
  bcrypt_hash = λ salt password. ok (concat "#" password);
  bcrypt_matches = λ hash password. hash == concat "#" password;
  sha256_hex = λ s. s;
  lower_beyond_ascii = λ c. c;
  format_rfc3339 = λ t. "soon";
  issue = λ now p. ok p.id;
}

pub env-IsBcrypt : IsBcrypt env
env-IsBcrypt salt password hash h = ground (arith, eq_iff hash (concat "#" password))

abbrev pub at : ℕ → Runtime
at now = record { now = now; later = now; uuid = "u1"; salt = "s"; random_text = ok "raw" }

abbrev pub service : AuthService (Option UserRecord) (Option PasswordResetTokenRecord)
service =
    with_password_reset (strata_resets reset_table) (λ mail. ok tt)
      (new_auth_service (strata_users user_table))

abbrev pub ann : Player
ann = record {
  id = "u1";
  email = "ann@o2ul";
  username = "Ann";
  password_hash = "#pw";
  role = "registered";
  created_at = 5;
  updated_at = 5;
}

abbrev stored_token : PasswordResetTokenRecord
stored_token = record {
  id = "t1";
  player_id = "u1";
  token_hash = "raw";
  expires_at = 100;
  created_at = 5;
  used = false;
  used_at = 0;
}

abbrev pub empty : World (Option UserRecord) (Option PasswordResetTokenRecord)
empty = record { users = none; resets = none; outbox = []; log = [] }

abbrev with_ann : World (Option UserRecord) (Option PasswordResetTokenRecord)
with_ann = record {
  users = some (to_user_record ann);
  resets = some stored_token;
  outbox = [];
  log = [];
}

abbrev pub registered : World (Option UserRecord) (Option PasswordResetTokenRecord)
registered = (register env service (at 5) empty " Ann@O2ul " "Ann" "pw" "").1

pub repo_law : IsUserRepository service.repo
unfolding new_auth_service
repo_law = users-IsUserRepository

registers :
    register env service (at 5) empty " Ann@O2ul " "Ann" "pw" "" ≡ (ok (ann, "u1"), registered)
unfolding register finish_registration finish_session new_player new_auth_service
    validate_smtp_config missing_settings create one_set trim_space is_space_code to_lower
    normalize_role is_valid_role lookup
registers = refl

register-login_example :
    ((login env service (at 9) registered " Ann@O2ul " "pw").0 ≡ ok (ann, "u1"))
    × (is_valid_role ann.role ≡ true)
    × (ann.email ≡ normalized_email env " Ann@O2ul ")
    × (service.repo.by_id registered.users (at 5).uuid ≡ ok ann)
register-login_example =
    register-login env service repo_law env-IsBcrypt (at 5) (at 9) empty registered " Ann@O2ul "
      "Ann" "pw" "" ann "u1" "u1" registers refl

abbrev reset : World (Option UserRecord) (Option PasswordResetTokenRecord)
reset = (reset_password env service (at 20) with_ann "raw" "new").1

resets_set : service.reset_repo ≡ some (strata_resets reset_table)
unfolding new_auth_service
resets_set = refl

resets : reset_password env service (at 20) with_ann "raw" "new" ≡ (ok tt, reset)
unfolding reset_password check_reset write_reset new_auth_service validate_smtp_config
    missing_settings validate_password_reset_dependencies get_valid_by_hash mark_used
    update_password one_get one_set one_search trim_space is_space_code
resets = refl

abbrev token : PasswordResetToken
token = record {
  id = "t1";
  player_id = "u1";
  token_hash = "raw";
  expires_at = 100;
  created_at = 5;
  used = false;
  used_at = 0;
}

token_valid :
    (strata_resets reset_table).get_valid_by_hash with_ann.resets (env.sha256_hex "raw") (at 20).now
    ≡ ok token
unfolding get_valid_by_hash one_search
token_valid = refl

ann_known : service.repo.by_email with_ann.users (normalized_email env "ann@o2ul") ≡ ok ann
unfolding new_auth_service by_email one_search trim_space is_space_code to_lower
ann_known = refl

reset_password-authenticate_example :
    (hash : String) × (authenticate env service reset "ann@o2ul" "new"
      ≡ ok (record ann { password_hash = hash; updated_at = (at 20).later }))
reset_password-authenticate_example =
    reset_password-authenticate env service (strata_resets reset_table) env-IsBcrypt repo_law
      resets_set (at 20) with_ann reset "raw" "new" "ann@o2ul" token ann token_valid ann_known refl
      resets

abbrev ann_only : World (Option UserRecord) (Option PasswordResetTokenRecord)
ann_only = record with_ann { resets = none }

bob_named : normalized_email env "bob@o2ul" ≢ ""
unfolding trim_space is_space_code to_lower
bob_named e = cc

bob_unknown :
    service.repo.by_email ann_only.users (normalized_email env "bob@o2ul")
    ≡ err (message "not found")
unfolding new_auth_service by_email one_search trim_space is_space_code to_lower
bob_unknown = refl

ann_named : normalized_email env "ann@o2ul" ≢ ""
unfolding trim_space is_space_code to_lower
ann_named e = cc

ann_found : service.repo.by_email ann_only.users (normalized_email env "ann@o2ul") ≡ ok ann
unfolding new_auth_service by_email one_search trim_space is_space_code to_lower
ann_found = refl

forgot_password-hides_example :
    let known = forgot_password env service (at 5) ann_only "ann@o2ul" in
    let other = forgot_password env service (at 9) ann_only "bob@o2ul" in
    ((known.0 ≡ other.0)
      ⊎ ((resets : PasswordResetRepository (Option PasswordResetTokenRecord)) × (send : Email
            → Result (Unit {0}))
          × (e : Error) × (service.reset_repo ≡ some resets)
          × (service.email_sender ≡ some send)
          × DeliveryFails env service resets send (at 5) ann_only ann e
          × (known.0 ≡ err e)
          × (other.0 ≡ ok tt)))
    × (other.1.users ≡ ann_only.users)
    × (other.1.resets ≡ ann_only.resets)
    × (other.1.outbox ≡ ann_only.outbox)
forgot_password-hides_example =
    forgot_password-hides env service (at 5) (at 9) ann_only "ann@o2ul" "bob@o2ul" ann
      (message "not found") ann_named bob_named ann_found bob_unknown
