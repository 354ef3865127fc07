-- ===== src/Tests/Admin.antt =====
-- A moderator's request to change an administrator's role, over a one-row table.
use Prim.Native.Char.{Char}
use o2ul_portal.Common.{
  ◌≡◌, refl, ◌⊎◌, String, true, Option, some, Result, ok, Error, strip_prefix, lookup,
}
use o2ul_portal.Common.Int.{pos}
use o2ul_portal.Domain.Role.{
  Role, can_act_as, normalize_role, parse_role, role_moderator, role_registered,
}
use o2ul_portal.Domain.Player.{Player}
use o2ul_portal.Accounts.{UserRepository}
use o2ul_portal.Accounts.Users
use o2ul_portal.Accounts.Users.{UserRecord, strata_users, from_user_record, by_id}
use o2ul_portal.Http.{failed, json, TokenClaims}
use o2ul_portal.Http.Admin.{patch_role}
use o2ul_portal.Http.Admin.Assignment.{
  IsPermitted, IsRefused, patch_role-IsPermitted, patch_role-demotes,
}
use o2ul_portal.Tests.OneRow.{one_get, one_set}
use o2ul_portal.Tests.Accounts.{user_table, users-IsUserRepository}
use o2ul_portal.Tests.Profiles.{a_b}

abbrev repo : UserRepository (Option UserRecord)
repo = strata_users user_table

abbrev admin_row : UserRecord
admin_row = record {
  id = "a";
  email = "ann@o2ul";
  username = "Ann";
  password_hash = "#";
  role = "admin";
  created_at = 1;
  updated_at = 1;
}

abbrev demoted_row : UserRecord
demoted_row = record admin_row { role = "registered"; updated_at = 5 }

abbrev claims : TokenClaims
claims = record {
  player_id = "m";
  email = "";
  username = "Mo";
  role = "moderator";
  expires_at = pos 9;
}

abbrev parse : String → Result TokenClaims
parse token = ok claims

abbrev same_char : Char → Char
same_char c = c

bearer : strip_prefix "Bearer " "Bearer t" ≡ some "t"
unfolding strip_prefix
bearer = refl

moderates : can_act_as claims.role role_moderator ≡ true
unfolding can_act_as normalize_role lookup
moderates = refl

admin_found : repo.by_id (some admin_row) "a" ≡ ok (from_user_record admin_row)
unfolding by_id one_get
admin_found = refl

demotion : repo.update_role (some admin_row) "a" role_registered 5 ≡ (ok tt, some demoted_row)
unfolding Users.update_role one_get one_set
demotion = refl

demoting :
    patch_role repo same_char parse 5 "a" (ok role_registered) "Bearer t" (some admin_row)
    ≡ (json 200 tt, some demoted_row)
demoting =
    (patch_role-demotes repo same_char users-IsUserRepository parse 5 "a" "Bearer t" "t" claims
      (from_user_record admin_row) (some admin_row) (some demoted_row) bearer refl moderates
      admin_found demotion).0

patch_role-demotes_example :
    (patch_role repo same_char parse 5 "a" (ok role_registered) "Bearer t" (some admin_row)
      ≡ (json 200 tt, some demoted_row))
    × (repo.by_id (some demoted_row) "a"
        ≡ ok (record (from_user_record admin_row) { role = role_registered; updated_at = 5 }))
patch_role-demotes_example =
    patch_role-demotes repo same_char users-IsUserRepository parse 5 "a" "Bearer t" "t" claims
      (from_user_record admin_row) (some admin_row) (some demoted_row) bearer refl moderates
      admin_found demotion

patch_role-IsPermitted_example :
    IsRefused (json 200 tt) (some admin_row) (some demoted_row)
    ⊎ ((token : String) × (c : TokenClaims) × (raw : Role) × (user : Player) × (strip_prefix
            "Bearer " "Bearer t"
          ≡ some token)
        × (parse token ≡ ok c)
        × (ok role_registered ≡ ok raw)
        × IsPermitted repo same_char c "a" raw user (some admin_row)
        × (((e : Error) × (json 200 tt ≡ failed 500 e))
            ⊎ ((json 200 tt ≡ json 200 tt)
                × (repo.by_id (some demoted_row) "a"
                    ≡ ok (record user { role = (parse_role same_char raw).0; updated_at = 5 }))
                × (repo.by_id (some demoted_row) "b" ≡ repo.by_id (some admin_row) "b"))))
patch_role-IsPermitted_example =
    patch_role-IsPermitted repo same_char users-IsUserRepository parse 5 "a" "b" "Bearer t"
      (ok role_registered) (some admin_row) (some demoted_row) (json 200 tt) a_b demoting
