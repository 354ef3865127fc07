-- ===== src/Portal/Preferences.antt =====
-- `O2ULPreferencesService` (internal/application/o2ul_preferences_service.go), the types of
-- internal/domain/o2ul_preferences/preferences.go, and `StrataO2ULPreferencesRepository`
-- (internal/infrastructure/db/o2ul_preferences_strata.go).
use o2ul_portal.Common.{
  ℕ, String, Bool, true, false, not, List, [], ◌∷◌, ◌==◌, is_nil, if◌then◌else◌, Result, ok, err,
  not_found, message, Error, value_or,
}
use o2ul_portal.Common.Int.{ℤ, pos}
use o2ul_portal.Domain.Role.{Role, can_act_as, role_admin}
use o2ul_portal.Store.{Table, missing_as}
pub mod Admin

pub record SystemPreferences : Type 0 where
  pub mode : String
  pub enable_calling : Bool
  pub enabled_oauth_providers : List String
  pub last_updated_unix : ℤ
  pub updated_by : String

pub record PreferencesRecord : Type 0 where
  pub id : String
  pub mode : String
  pub enable_calling : Bool
  pub enabled_oauth_providers : List String
  pub last_updated_unix : ℤ
  pub updated_by : String

abbrev pub built_in_auth_provider : String
built_in_auth_provider = "platform"

abbrev pub default_preferences : ℤ → SystemPreferences
default_preferences now = record {
  mode = "live";
  enable_calling = false;
  enabled_oauth_providers = built_in_auth_provider ∷ [];
  last_updated_unix = now;
  updated_by = "system";
}

abbrev pub zero_preferences : SystemPreferences
zero_preferences = record {
  mode = "";
  enable_calling = false;
  enabled_oauth_providers = [];
  last_updated_unix = pos 0;
  updated_by = "";
}

abbrev pub preferences_key : String
preferences_key = "system"

abbrev pub to_preferences_record : SystemPreferences → PreferencesRecord
to_preferences_record p = record {
  id = preferences_key;
  mode = p.mode;
  enable_calling = p.enable_calling;
  enabled_oauth_providers = p.enabled_oauth_providers;
  last_updated_unix = p.last_updated_unix;
  updated_by = p.updated_by;
}

abbrev pub from_preferences_record : PreferencesRecord → SystemPreferences
from_preferences_record r = record {
  mode = r.mode;
  enable_calling = r.enable_calling;
  enabled_oauth_providers = r.enabled_oauth_providers;
  last_updated_unix = r.last_updated_unix;
  updated_by = r.updated_by;
}

-- Get replaces an empty list of providers by the one that is built in.
abbrev pub with_providers : SystemPreferences → SystemPreferences
with_providers prefs =
    if is_nil prefs.enabled_oauth_providers
    then record prefs { enabled_oauth_providers = built_in_auth_provider ∷ [] }
    else prefs

-- what all three updates write besides their own field
abbrev pub stamped : String → ℤ → SystemPreferences → SystemPreferences
stamped caller_id now prefs = record prefs {
  updated_by = caller_id;
  last_updated_unix = now;
  enabled_oauth_providers = built_in_auth_provider ∷ [];
}

-- the loop of IsOAuthProviderEnabled
unfoldable pub is_listed : String → List String → Bool
is_listed provider [] = false
is_listed provider (p ∷ ps) =
    let rest = is_listed provider ps in if p == provider then true else rest

abbrev pub admin_required : Error
admin_required = message "admin access required"

module _ {S : Type 0} (T : Table PreferencesRecord S) where
  unfoldable pub read : S → Result SystemPreferences
  read s = elim (missing_as not_found (T.get s preferences_key)) [
    | err e ↦ err e
    | ok r ↦ ok (from_preferences_record r)
  ]

  unfoldable pub upsert : S → SystemPreferences → Result SystemPreferences × S
  upsert s prefs =
      let (written, t) = T.set s preferences_key (to_preferences_record prefs) in
      elim written [ ok u ↦ (ok prefs, t) | err e ↦ (err e, t) ]

  unfoldable pub get : S → ℤ → Result SystemPreferences
  get s now = elim (read s) [
    | err not_found ↦ ok (default_preferences now)
    | err e ↦ err e
    | ok prefs ↦ ok (with_providers prefs)
  ]

  -- `prefs, _ := s.Get(ctx)`
  abbrev pub current : S → ℤ → SystemPreferences
  current s now = value_or zero_preferences (get s now)

  unfoldable pub update_mode : S → ℤ → String → Role → String → Result SystemPreferences × S
  update_mode s now caller_id caller_role mode =
      if not (can_act_as caller_role role_admin)
      then (err admin_required, s)
      else upsert s (stamped caller_id now (record (current s now) { mode = mode }))

  unfoldable pub update_calling_state : S → ℤ → String → Role → Bool → Result SystemPreferences × S
  update_calling_state s now caller_id caller_role enabled =
      if not (can_act_as caller_role role_admin)
      then (err admin_required, s)
      else upsert s (stamped caller_id now (record (current s now) { enable_calling = enabled }))

  -- the list of providers that the caller asks for is ignored
  unfoldable pub update_oauth_providers :
      S → ℤ → String → Role → List String → Result SystemPreferences × S
  update_oauth_providers s now caller_id caller_role providers =
      if not (can_act_as caller_role role_admin)
      then (err admin_required, s)
      else upsert s (stamped caller_id now (current s now))

  unfoldable pub is_oauth_provider_enabled : S → ℤ → String → Result Bool
  is_oauth_provider_enabled s now provider =
      if provider == built_in_auth_provider then ok true else elim (get s now) [
        | err e ↦ err e
        | ok prefs ↦ ok (is_listed provider prefs.enabled_oauth_providers)
      ]
