-- ===== src/Portal/Profiles/Users.antt =====
-- `O2ULUsersService` (internal/application/o2ul_users_service.go). `now` is time.Now in
-- milliseconds; a call reads it several times and gets the same value each time here.
use o2ul_portal.Common.{
  ℕ, String, Bool, true, false, Option, none, some, List, [], ◌∷◌, ◌++◌, ◌==◌, is_blank,
  if◌then◌else◌, Map, lookup, Result, ok, err, value_or,
}
use o2ul_portal.Common.Int.{ℤ, pos, eq_ℤ}
use o2ul_portal.Domain.Role.{Role, can_act_as, role_admin, role_registered}
use o2ul_portal.Accounts.{UserRepository}
use o2ul_portal.Portal.Profiles.{Profile, ProfileRepository}

-- `firstNonEmpty`: the first value that is not blank
unfoldable pub first_non_empty : List String → String
first_non_empty [] = ""
first_non_empty (v ∷ values) = let rest = first_non_empty values in if is_blank v then rest else v

abbrev pub presence_status : Bool → String
presence_status is_online = if is_online then "online" else "offline"

-- o2ul_users.IsAdminRole
abbrev pub is_admin_role : Role → Bool
is_admin_role role = can_act_as role role_admin

abbrev pub zero_profile : Profile
zero_profile = record {
  player_id = "";
  username = "";
  name = "";
  email = "";
  image = "";
  bio = "";
  phone = "";
  bg_image_url = "";
  bg_image_storage_id = "";
  bg_image_opacity = 0;
  is_anonymous = false;
  is_online = false;
  is_beta_tester = false;
  is_hookup_enabled = false;
  last_login_date_unix = pos 0;
  last_seen_unix = pos 0;
  created_at_unix = pos 0;
  updated_at_unix = pos 0;
}

pub record Viewer : Type 0 where
  pub user_id : String
  pub username : String
  pub name : String
  pub email : String
  pub image : String
  pub role : Role
  pub is_anonymous : Bool
  pub is_online : Bool
  pub is_admin : Bool
  pub admin_role : Role
  pub is_beta_tester : Bool
  pub is_hookup_enabled : Bool
  pub last_seen : ℤ
  pub presence_status : String

-- the entries of the map that GetPublic returns
pub record PublicView : Type 0 where
  pub user_id : String
  pub username : String
  pub name : String
  pub avatar : String
  pub bio : String
  pub bg_image_url : String
  pub is_online : Bool
  pub role : Role
  pub is_admin : Bool

-- A value of the patch, a `map[string]any`: a text, the bits of a float64, or anything else.
pub data PatchValue : Type 0 where
  text : String → PatchValue
  number : ℕ → PatchValue
  other : PatchValue

-- `if v, ok := patch[key].(string); ok { profile.Field = v }`
abbrev pub patched : String → Map PatchValue → String → String
patched key patch old = elim (lookup key patch) [ some (text v) ↦ v | _ ↦ old ]

abbrev pub patched_number : String → Map PatchValue → ℕ → ℕ
patched_number key patch old = elim (lookup key patch) [ some (number v) ↦ v | _ ↦ old ]

unfoldable pub apply_profile_patch : Map PatchValue → Profile → Profile
apply_profile_patch patch profile = record profile {
  username = patched "username" patch profile.username;
  name = patched "name" patch profile.name;
  bio = patched "bio" patch profile.bio;
  email = patched "email" patch profile.email;
  phone = patched "phone" patch profile.phone;
  bg_image_url = patched "bgImageUrl" patch profile.bg_image_url;
  bg_image_storage_id = patched "bgImageStorageId" patch profile.bg_image_storage_id;
  bg_image_opacity = patched_number "bgImageOpacity" patch profile.bg_image_opacity;
  image = patched "image" patch profile.image;
}

-- `profile.UpdatedAtUnix = now`, which CreatedAtUnix starts from
abbrev pub touched : ℤ → Profile → Profile
touched now profile = record profile {
  updated_at_unix = now;
  created_at_unix = if eq_ℤ profile.created_at_unix (pos 0) then now else profile.created_at_unix;
}

-- `seen[id]`, for the ids of the profiles that were found
unfoldable pub seen_in : String → List Profile → Bool
seen_in id [] = false
seen_in id (p ∷ profiles) =
    let rest = seen_in id profiles in if p.player_id == id then true else rest

abbrev pub anonymous : String → Profile
anonymous id = record zero_profile {
  player_id = id;
  username = "anonymous";
  name = "Anonymous User";
}

-- the loop that adds an anonymous profile for every id that was not found
unfoldable pub add_missing : List Profile → List String → List Profile
add_missing seen [] = []
add_missing seen (id ∷ ids) =
    let rest = add_missing seen ids in if seen_in id seen then rest else anonymous id ∷ rest

module _ {U S : Type 0} (users : UserRepository U) (profiles : ProfileRepository S) where
  -- `profile, _ := s.profiles.GetByPlayerID(ctx, id)`
  abbrev pub profile_of : S → String → Profile
  profile_of s id = value_or zero_profile (profiles.get_by_player_id s id)

  unfoldable pub viewer : U → S → String → Result (Option Viewer)
  viewer u s caller_id = if is_blank caller_id then ok none else elim (users.by_id u caller_id) [
    | err e ↦ err e
    | ok user ↦
        let profile = profile_of s caller_id in
        ok (
          some (record {
            user_id = user.id;
            username = first_non_empty (profile.username ∷ user.username ∷ []);
            name = first_non_empty (profile.name ∷ user.username ∷ []);
            email = first_non_empty (profile.email ∷ user.email ∷ []);
            image = profile.image;
            role = user.role;
            is_anonymous = profile.is_anonymous;
            is_online = profile.is_online;
            is_admin = is_admin_role user.role;
            admin_role = if is_admin_role user.role then user.role else "";
            is_beta_tester = profile.is_beta_tester;
            is_hookup_enabled = profile.is_hookup_enabled;
            last_seen = profile.last_seen_unix;
            presence_status = presence_status profile.is_online;
          }))
  ]

  unfoldable pub get_public : U → S → String → Result PublicView
  get_public u s id = elim (users.by_id u id) [
    | err e ↦ err e
    | ok user ↦
        let profile = profile_of s id in
        ok (record {
          user_id = user.id;
          username = first_non_empty (profile.username ∷ user.username ∷ []);
          name = first_non_empty (profile.name ∷ user.username ∷ []);
          avatar = profile.image;
          bio = profile.bio;
          bg_image_url = profile.bg_image_url;
          is_online = profile.is_online;
          role = role_registered;
          is_admin = is_admin_role user.role;
        })
  ]

  unfoldable pub batch_profiles : S → List String → Result (List Profile)
  batch_profiles s ids = elim (profiles.batch_get_by_player_ids s ids) [
    | err e ↦ err e
    | ok found ↦ ok (found ++ add_missing found ids)
  ]

  unfoldable pub init_user : S → ℤ → String → String → String → Result Profile × S
  init_user s now caller_id email username = elim (profiles.get_by_player_id s caller_id) [
    | ok profile ↦
        profiles.upsert s
          (record profile { last_login_date_unix = now; last_seen_unix = now; is_online = true })
    | err e ↦ profiles.upsert s (record zero_profile {
      player_id = caller_id;
      username = username;
      name = first_non_empty (username ∷ "New User" ∷ []);
      email = email;
      is_online = true;
      last_login_date_unix = now;
      last_seen_unix = now;
      created_at_unix = now;
      updated_at_unix = now;
    })
  ]

  unfoldable pub update_profile : S → ℤ → String → Map PatchValue → Result Profile × S
  update_profile s now caller_id patch =
      let profile = record (profile_of s caller_id) { player_id = caller_id } in
      profiles.upsert s (touched now (apply_profile_patch patch profile))

  unfoldable pub update_background : S → ℤ → String → String → String → Result Profile × S
  update_background s now caller_id url storage_id =
      let profile = profile_of s caller_id in
      profiles.upsert s (
        touched now (record profile {
          player_id = caller_id;
          bg_image_url = url;
          bg_image_storage_id = storage_id;
        }))

  abbrev pub delete_platform_data : S → String → Result (Unit {0}) × S
  delete_platform_data s caller_id = profiles.delete_by_player_id s caller_id
