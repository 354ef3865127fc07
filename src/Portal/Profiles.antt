-- ===== src/Portal/Profiles.antt =====
-- `o2ul_users.Profile` (internal/domain/o2ul_users/profile.go), its repository interface
-- (internal/application/o2ul_users_interfaces.go), and `StrataO2ULUserProfileRepository`
-- (internal/infrastructure/db/o2ul_users_strata.go).
use o2ul_portal.Common.{
  ℕ, String, Bool, List, [], ◌∷◌, ◌≡◌, Result, ok, err, not_found, Error, is_not_found,
  if◌then◌else◌,
}
use o2ul_portal.Common.Int.{ℤ}
use o2ul_portal.Store.{Table, missing_as}
pub mod Users
pub mod Batch
pub mod Stored
pub mod AuthSync
pub mod Listing

-- `bg_image_opacity` holds the bits of a float64; the times are int64 milliseconds.
pub record Profile : Type 0 where
  pub player_id : String
  pub username : String
  pub name : String
  pub email : String
  pub image : String
  pub bio : String
  pub phone : String
  pub bg_image_url : String
  pub bg_image_storage_id : String
  pub bg_image_opacity : ℕ
  pub is_anonymous : Bool
  pub is_online : Bool
  pub is_beta_tester : Bool
  pub is_hookup_enabled : Bool
  pub last_login_date_unix : ℤ
  pub last_seen_unix : ℤ
  pub created_at_unix : ℤ
  pub updated_at_unix : ℤ

-- the columns that the repository sets itself; strata fills in the other two
pub record ProfileRecord : Type 0 where
  pub player_id : String
  pub username : String
  pub name : String
  pub email : String
  pub image : String
  pub bio : String
  pub phone : String
  pub bg_image_url : String
  pub bg_image_storage_id : String
  pub bg_image_opacity : ℕ
  pub is_anonymous : Bool
  pub is_online : Bool
  pub is_beta_tester : Bool
  pub is_hookup_enabled : Bool
  pub last_login_date_unix : ℤ
  pub last_seen_unix : ℤ
  pub created_at_unix : ℤ
  pub updated_at_unix : ℤ

pub record ProfileRepository (S : Type 0) : Type 0 where
  pub get_by_player_id : S → String → Result Profile
  pub upsert : S → Profile → Result Profile × S
  pub batch_get_by_player_ids : S → List String → Result (List Profile)
  pub delete_by_player_id : S → String → Result (Unit {0}) × S

abbrev pub to_profile_record : Profile → ProfileRecord
to_profile_record p = record {
  player_id = p.player_id;
  username = p.username;
  name = p.name;
  email = p.email;
  image = p.image;
  bio = p.bio;
  phone = p.phone;
  bg_image_url = p.bg_image_url;
  bg_image_storage_id = p.bg_image_storage_id;
  bg_image_opacity = p.bg_image_opacity;
  is_anonymous = p.is_anonymous;
  is_online = p.is_online;
  is_beta_tester = p.is_beta_tester;
  is_hookup_enabled = p.is_hookup_enabled;
  last_login_date_unix = p.last_login_date_unix;
  last_seen_unix = p.last_seen_unix;
  created_at_unix = p.created_at_unix;
  updated_at_unix = p.updated_at_unix;
}

abbrev pub from_profile_record : ProfileRecord → Profile
from_profile_record r = record {
  player_id = r.player_id;
  username = r.username;
  name = r.name;
  email = r.email;
  image = r.image;
  bio = r.bio;
  phone = r.phone;
  bg_image_url = r.bg_image_url;
  bg_image_storage_id = r.bg_image_storage_id;
  bg_image_opacity = r.bg_image_opacity;
  is_anonymous = r.is_anonymous;
  is_online = r.is_online;
  is_beta_tester = r.is_beta_tester;
  is_hookup_enabled = r.is_hookup_enabled;
  last_login_date_unix = r.last_login_date_unix;
  last_seen_unix = r.last_seen_unix;
  created_at_unix = r.created_at_unix;
  updated_at_unix = r.updated_at_unix;
}

module _ {S : Type 0} (T : Table ProfileRecord S) where
  unfoldable pub get_by_player_id : S → String → Result Profile
  get_by_player_id s player_id = elim (missing_as not_found (T.get s player_id)) [
    | err e ↦ err e
    | ok r ↦ ok (from_profile_record r)
  ]

  unfoldable pub upsert : S → Profile → Result Profile × S
  upsert s profile =
      let (written, t) = T.set s profile.player_id (to_profile_record profile) in
      elim written [ ok u ↦ (ok profile, t) | err e ↦ (err e, t) ]

  -- one step of the loop of BatchGetByPlayerIDs: `continue` on a missing profile
  abbrev pub batch_step : Result Profile → Result (List Profile) → Result (List Profile)
  batch_step (ok profile) (ok out) = ok (profile ∷ out)
  batch_step (ok profile) (err e) = err e
  batch_step (err e) rest = if is_not_found e then rest else err e

  unfoldable pub batch_get_by_player_ids : S → List String → Result (List Profile)
  batch_get_by_player_ids s [] = ok []
  batch_get_by_player_ids s (id ∷ ids) =
      batch_step (get_by_player_id s id) (batch_get_by_player_ids s ids)

  abbrev pub delete_by_player_id : S → String → Result (Unit {0}) × S
  delete_by_player_id s player_id = T.delete s player_id

  abbrev pub strata_profiles : ProfileRepository S
  strata_profiles = record {
    get_by_player_id = get_by_player_id;
    upsert = upsert;
    batch_get_by_player_ids = batch_get_by_player_ids;
    delete_by_player_id = delete_by_player_id;
  }
