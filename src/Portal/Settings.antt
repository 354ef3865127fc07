-- ===== src/Portal/Settings.antt =====
-- `PreferencesService` (internal/application/preferences_service.go), the types of
-- internal/domain/preferences.go, and `StrataPreferencesRepository`
-- (internal/infrastructure/db/postgres_preferences.go): the settings of a user.
use o2ul_portal.Common.{
  ℕ, String, Bool, true, false, List, [], ◌∷◌, ◌==◌, if◌then◌else◌, Result, ok, err, not_found,
  message, Error,
}
use o2ul_portal.Common.Int.{ℤ, pos, leb_ℤ}
use o2ul_portal.Store.{Table, missing_as, text}
use o2ul_portal.Log.{Log, value, info}
pub mod Saved

pub record UserSettings : Type 0 where
  pub player_id : String
  pub theme : String
  pub refresh_seconds : ℤ
  pub updated_at : ℕ

pub record NotificationPreferences : Type 0 where
  pub player_id : String
  pub email_enabled : Bool
  pub push_enabled : Bool
  pub in_app_enabled : Bool
  pub updated_at : ℕ

-- The columns are those of the domain types. Both columns `updated_at` are tagged auto_now: strata
-- fills them in when it writes a record.
pub record SettingsRecord : Type 0 where
  pub player_id : String
  pub theme : String
  pub refresh_seconds : ℤ
  pub updated_at : ℕ

pub record NotificationPreferencesRecord : Type 0 where
  pub player_id : String
  pub email_enabled : Bool
  pub push_enabled : Bool
  pub in_app_enabled : Bool
  pub updated_at : ℕ

abbrev pub to_settings_record : UserSettings → SettingsRecord
to_settings_record s = record {
  player_id = s.player_id;
  theme = s.theme;
  refresh_seconds = s.refresh_seconds;
  updated_at = s.updated_at;
}

abbrev pub from_settings_record : SettingsRecord → UserSettings
from_settings_record r = record {
  player_id = r.player_id;
  theme = r.theme;
  refresh_seconds = r.refresh_seconds;
  updated_at = r.updated_at;
}

abbrev pub to_choices_record : NotificationPreferences → NotificationPreferencesRecord
to_choices_record p = record {
  player_id = p.player_id;
  email_enabled = p.email_enabled;
  push_enabled = p.push_enabled;
  in_app_enabled = p.in_app_enabled;
  updated_at = p.updated_at;
}

abbrev pub from_choices_record : NotificationPreferencesRecord → NotificationPreferences
from_choices_record r = record {
  player_id = r.player_id;
  email_enabled = r.email_enabled;
  push_enabled = r.push_enabled;
  in_app_enabled = r.in_app_enabled;
  updated_at = r.updated_at;
}

abbrev pub default_theme : String
default_theme = "theme-ocean"

abbrev pub default_settings : String → ℕ → UserSettings
default_settings player_id now = record {
  player_id = player_id;
  theme = default_theme;
  refresh_seconds = pos 30;
  updated_at = now;
}

abbrev pub default_notifications : String → ℕ → NotificationPreferences
default_notifications player_id now = record {
  player_id = player_id;
  email_enabled = true;
  push_enabled = false;
  in_app_enabled = true;
  updated_at = now;
}

-- what SaveSettings makes of the settings before it writes them
abbrev pub completed : UserSettings → ℕ → UserSettings
completed s now = record s {
  theme = if s.theme == "" then default_theme else s.theme;
  refresh_seconds = if leb_ℤ s.refresh_seconds (pos 0) then pos 30 else s.refresh_seconds;
  updated_at = now;
}

abbrev pub player_id_required : Error
player_id_required = message "player id is required"

-- `s.logs.Info(name, map[string]any{"playerId": id})` on success; a failure is not logged
abbrev pub logged_as : {A : Type 0} → String → String → A → Result (Unit {0}) → Log → Result A × Log
logged_as name player_id saved (ok u) log =
    (ok saved, info name (("playerId", value (text player_id)) ∷ []) log)
logged_as name player_id saved (err e) log = (err e, log)

module _ {S : Type 0} (T : Table SettingsRecord S) where
  unfoldable pub read_settings : S → String → Result UserSettings
  read_settings s player_id = elim (missing_as not_found (T.get s player_id)) [
    | err e ↦ err e
    | ok r ↦ ok (from_settings_record r)
  ]

  unfoldable pub upsert_settings : S → UserSettings → Result (Unit {0}) × S
  upsert_settings s settings = T.set s settings.player_id (to_settings_record settings)

  unfoldable pub get_settings : S → ℕ → String → Result UserSettings
  get_settings s now player_id = elim (read_settings s player_id) [
    | err not_found ↦ ok (default_settings player_id now)
    | err e ↦ err e
    | ok settings ↦ ok settings
  ]

  unfoldable pub save_settings : S → Log → ℕ → UserSettings → (Result UserSettings × Log) × S
  save_settings s log now settings =
      if settings.player_id == ""
      then ((err player_id_required, log), s)
      else let saved = completed settings now in
        let (written, t) = upsert_settings s saved in
        (logged_as "settings_saved" saved.player_id saved written log, t)

module _ {S : Type 0} (T : Table NotificationPreferencesRecord S) where
  unfoldable pub read_choices : S → String → Result NotificationPreferences
  read_choices s player_id = elim (missing_as not_found (T.get s player_id)) [
    | err e ↦ err e
    | ok r ↦ ok (from_choices_record r)
  ]

  unfoldable pub upsert_choices : S → NotificationPreferences → Result (Unit {0}) × S
  upsert_choices s prefs = T.set s prefs.player_id (to_choices_record prefs)

  unfoldable pub get_notification_preferences : S → ℕ → String → Result NotificationPreferences
  get_notification_preferences s now player_id = elim (read_choices s player_id) [
    | err not_found ↦ ok (default_notifications player_id now)
    | err e ↦ err e
    | ok prefs ↦ ok prefs
  ]

  unfoldable pub save_notification_preferences :
      S → Log → ℕ → NotificationPreferences → (Result NotificationPreferences × Log) × S
  save_notification_preferences s log now prefs =
      if prefs.player_id == ""
      then ((err player_id_required, log), s)
      else let saved : NotificationPreferences = record prefs { updated_at = now } in
        let (written, t) = upsert_choices s saved in
        (logged_as "notification_preferences_saved" saved.player_id saved written log, t)
