-- ===== src/Portal/Settings/Saved.antt =====
-- Saved settings are usable and are found again.
use o2ul_portal.Common.{ℕ, String, ◌≡◌, refl, sym, ◌≢◌, subst, [], ◌∷◌, arith, eq_iff, ok}
use o2ul_portal.Common.Int.{pos, ◌<ℤ◌, ◌≤ℤ◌}
use o2ul_portal.Store.{Table, IsFilledTable, text}
use o2ul_portal.Log.{Log, value, info}
use o2ul_portal.Portal.Settings.{
  UserSettings, SettingsRecord, to_settings_record, completed, read_settings, upsert_settings,
  get_settings, save_settings,
}

-- A record with the time that strata gave it.
abbrev pub IsStamped : SettingsRecord → SettingsRecord → Type 0
IsStamped r q = (time : ℕ) × (q ≡ record r { updated_at = time })

-- The settings that are saved for the given ones, written out.
pub record IsCompleted (given : UserSettings) (now : ℕ) (saved : UserSettings) : Type 0 where
  pub player : saved.player_id ≡ given.player_id
  pub theme_kept : given.theme ≢ "" → saved.theme ≡ given.theme
  pub theme_default : given.theme ≡ "" → saved.theme ≡ "theme-ocean"
  pub refresh_kept : pos 0 <ℤ given.refresh_seconds → saved.refresh_seconds ≡ given.refresh_seconds
  pub refresh_default : given.refresh_seconds ≤ℤ pos 0 → saved.refresh_seconds ≡ pos 30
  pub time : saved.updated_at ≡ now

completed-IsCompleted :
    (given : UserSettings) (now : ℕ) → IsCompleted given now (completed given now)
completed-IsCompleted given now = record {
  player = refl;
  theme_kept = λ h. ground (arith, eq_iff given.theme "");
  theme_default = λ h. ground (arith, eq_iff given.theme "");
  refresh_kept = λ h. ground arith;
  refresh_default = λ h. ground arith;
  time = refl;
}

module _ {S : Type 0} (T : Table SettingsRecord S) (law : IsFilledTable T IsStamped) where
  save_settings-ok :
      (s t : S) (log more : Log) (now : ℕ) (given saved : UserSettings)
      → save_settings T s log now given ≡ ((ok saved, more), t)
      → (saved ≡ completed given now)
        × (T.set s given.player_id (to_settings_record (completed given now)) ≡ (ok tt, t))
        × (more ≡ info "settings_saved" (("playerId", value (text given.player_id)) ∷ []) log)
  unfolding save_settings upsert_settings
  save_settings-ok s t log more now given saved h = ground arith

  -- If SaveSettings returns settings, they are those of the given player: the theme is the given
  -- one, or theme-ocean if that was empty; the refresh interval is the given one, or 30 seconds if
  -- that was not positive; the time is that of the call. GetSettings gives them back at any time, but
  -- for the time, which is the one that the store filled in. Whatever another player has is
  -- unchanged, and the log gains the one entry.
  pub save_settings-get :
      (s t : S) (log more : Log) (now later : ℕ) (given saved : UserSettings) (other : String)
      → given.player_id ≢ other
      → save_settings T s log now given ≡ ((ok saved, more), t)
      → IsCompleted given now saved
        × ((time : ℕ) × (get_settings T t later given.player_id
              ≡ ok (record saved { updated_at = time })))
        × (get_settings T t later other ≡ get_settings T s later other)
        × (more ≡ info "settings_saved" (("playerId", value (text given.player_id)) ∷ []) log)
  unfolding get_settings read_settings
  save_settings-get s t log more now later given saved other ne h =
      let (same, set, entry) = save_settings-ok s t log more now given saved h in
      let (q, row, (time, stamped)) =
        law.set_get s t given.player_id (to_settings_record (completed given now)) set in
      (
        subst (IsCompleted given now) (sym same) (completed-IsCompleted given now),
        (time, rw (row, get_settings, read_settings) (rw (stamped, same) refl)),
        rw
            (
              law.set_other s t given.player_id other (to_settings_record (completed given now)) set
                  ne,
              get_settings,
              read_settings,
            )
            refl,
        entry,
      )
