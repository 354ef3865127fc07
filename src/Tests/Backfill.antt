-- ===== src/Tests/Backfill.antt =====
-- Backfills and saved settings over one-row tables.
use Prim.Native.Char.{Char}
use o2ul_portal.Common.{
  ℕ, ◌+◌, ◌≤◌, ◌≡◌, ◌≢◌, refl, ◌⊎◌, ◌↔◌, String, true, Option, none, some, [], ◌∷◌, ok, Error,
  length, trim_space, is_space_code, to_lower,
}
use o2ul_portal.Common.Int.{pos}
use o2ul_portal.Store.{IsFilledTable, Table, text}
use o2ul_portal.Log.{Log, value, info}
use o2ul_portal.Accounts.{UserRepository}
use o2ul_portal.Accounts.Users.{UserRecord, strata_users, by_id}
use o2ul_portal.Portal.Profiles
use o2ul_portal.Portal.Profiles.{ProfileRecord, strata_profiles}
use o2ul_portal.Portal.Profiles.Users.{first_non_empty}
use o2ul_portal.Portal.Preferences
use o2ul_portal.Portal.Preferences.{SystemPreferences, PreferencesRecord, built_in_auth_provider}
use o2ul_portal.Portal.Settings.{
  UserSettings, SettingsRecord, completed, upsert_settings, get_settings, save_settings,
}
use o2ul_portal.Portal.Settings.Saved.{IsStamped, IsCompleted, save_settings-get}
use o2ul_portal.Backfill.{
  Options, LegacyProfile, LegacyPreferences, LegacyExport, BackfillStats, chosen_profiles,
  legacy_id, profile_of_legacy, is_eligible, import_profile, import_profiles, import_preferences,
  normalize_legacy_preferences, execute_backfill,
}
use o2ul_portal.Backfill.Loop.{execute_backfill-counts}
use o2ul_portal.Backfill.DryRun.{dry, real, execute_backfill-dry_run}
use o2ul_portal.Tests.OneRow.{one_get, one_set, one_row, one_row-IsTable}
use o2ul_portal.Tests.Accounts.{user_table}
use o2ul_portal.Tests.Profiles.{any_row, a_b}

abbrev profile_table : Table ProfileRecord (Option ProfileRecord)
profile_table = one_row (λ r. r.player_id) any_row

abbrev preference_table : Table PreferencesRecord (Option PreferencesRecord)
preference_table = one_row (λ r. r.id) any_row

abbrev same_char : Char → Char
same_char c = c

abbrev legacy_profile : String → LegacyProfile
legacy_profile id = record {
  player_id = " ";
  user_id = id;
  username = " ann ";
  name = "Ann";
  email = "";
  phone = "";
  bio = "";
  image = "";
  bg_image_url = "";
  bg_image_storage_id = "";
  bg_image_opacity = 0;
  is_anonymous = none;
  is_online = some true;
  is_beta_tester = none;
  is_hookup_enabled = none;
  last_login_date = none;
  last_seen = some (pos 3);
  created_at = none;
  updated_at = some (pos 4);
}

abbrev legacy_preferences : LegacyPreferences
legacy_preferences = record {
  mode = " Beta";
  enable_calling = none;
  enabled_oauth_providers = "other" ∷ [];
  last_updated = none;
  updated_by = "";
}

-- one profile that names nobody, and one that is imported
abbrev export : LegacyExport
export = record {
  profiles = [];
  user_profiles = legacy_profile "" ∷ legacy_profile "a" ∷ [];
  preferences = some legacy_preferences;
}

abbrev options : Options
options = record { input_file = "in"; dry_run = true; allow_missing_users = true }

abbrev users : UserRepository (Option UserRecord)
users = strata_users user_table

abbrev stats : BackfillStats
stats = record {
  profile_total = 2;
  profile_imported = 1;
  profile_skipped = 1;
  preference_handled = true;
  preference_updated = true;
}

abbrev after : Option ProfileRecord × Option PreferencesRecord
after =
    (execute_backfill users (strata_profiles profile_table) preference_table same_char
      (real options) (pos 9) none none none export).1

runs :
    execute_backfill users
      (strata_profiles profile_table)
      preference_table
      same_char
      (real options)
      (pos 9)
      none
      none
      none
      export
    ≡ ((stats, none), (after.0, after.1))
unfolding execute_backfill import_profiles import_profile is_eligible legacy_id first_non_empty
    by_id import_preferences normalize_legacy_preferences profile_of_legacy Preferences.upsert
    Profiles.upsert one_get one_set trim_space is_space_code to_lower
runs = refl

execute_backfill-counts_example :
    (stats.profile_total ≡ length (chosen_profiles export))
    × (stats.profile_imported + stats.profile_skipped ≤ stats.profile_total)
    × ((◌≢◌ {A = Option Error} none none)
        ⊎ ((stats.profile_imported + stats.profile_skipped ≡ stats.profile_total)
            × ((stats.preference_updated ≡ true) ↔ (export.preferences ≢ none))))
execute_backfill-counts_example =
    execute_backfill-counts users (strata_profiles profile_table) preference_table same_char
      (real options) (pos 9) none none after.0 none after.1 export stats none runs

execute_backfill-dry_run_example :
    (foretold : BackfillStats) × (execute_backfill users
        (strata_profiles profile_table)
        preference_table
        same_char
        (dry options)
        (pos 9)
        none
        none
        none
        export
      ≡ ((foretold, none), (none, none)))
    × ((◌≢◌ {A = Option Error} none none) ⊎ (stats ≡ foretold))
execute_backfill-dry_run_example =
    execute_backfill-dry_run users (strata_profiles profile_table) preference_table same_char
      options (pos 9) none none after.0 none after.1 export stats none runs

abbrev settings_table : Table SettingsRecord (Option SettingsRecord)
settings_table = record (one_row {R = SettingsRecord} (λ r. r.player_id) any_row) {
  set = λ s k r.
      one_set (λ (q : SettingsRecord). q.player_id) any_row s k (record r { updated_at = 99 });
}

settings_table-IsFilledTable : IsFilledTable settings_table IsStamped
settings_table-IsFilledTable =
    let rows = one_row-IsTable {R = SettingsRecord} (λ r. r.player_id) any_row in
    record {
      set_get = λ s t k r h. (
        record r { updated_at = 99 },
        rows.set_get s t k (record r { updated_at = 99 }) h,
        (99, refl),
      );
      set_other = λ s t k j r h ne. rows.set_other s t k j (record r { updated_at = 99 }) h ne;
    }

abbrev given : UserSettings
given = record { player_id = "a"; theme = ""; refresh_seconds = pos 0; updated_at = 0 }

abbrev settings_after : Option SettingsRecord
settings_after = (save_settings settings_table none [] 7 given).1

abbrev settings_log : Log
settings_log = info "settings_saved" (("playerId", value (text "a")) ∷ []) []

saves :
    save_settings settings_table none [] 7 given
    ≡ ((ok (completed given 7), settings_log), settings_after)
unfolding save_settings upsert_settings one_set
saves = refl

save_settings-get_example :
    IsCompleted given 7 (completed given 7)
    × ((time : ℕ) × (get_settings settings_table settings_after 9 "a"
          ≡ ok (record (completed given 7) { updated_at = time })))
    × (get_settings settings_table settings_after 9 "b" ≡ get_settings settings_table none 9 "b")
    × (settings_log ≡ info "settings_saved" (("playerId", value (text "a")) ∷ []) [])
save_settings-get_example =
    save_settings-get settings_table settings_table-IsFilledTable none settings_after []
      settings_log 7 9 given (completed given 7) "b" a_b saves
