-- ===== src/Backfill/Preferred.antt =====
-- The preferences that a backfill that succeeds has stored.
use o2ul_portal.Common.{
  Option, none, some, [], ◌∷◌, ◌≡◌, refl, sym, ap, arith, eq_iff, length, inl, inr, ◌⊎◌, Result, ok,
  err, trim_space, to_lower,
}
use Prim.Native.Char.{Char}
use o2ul_portal.Common.Int.{ℤ}
use o2ul_portal.Store.{Table, IsTable}
use o2ul_portal.Accounts.{UserRepository}
use o2ul_portal.Portal.Profiles.{ProfileRepository}
use o2ul_portal.Portal.Preferences.{
  PreferencesRecord, SystemPreferences, to_preferences_record, preferences_key,
  built_in_auth_provider,
}
use o2ul_portal.Portal.Preferences
use o2ul_portal.Backfill.{
  Options, LegacyPreferences, LegacyExport, BackfillStats, chosen_profiles, start_stats,
  import_profiles, import_preferences, finish_preferences, execute_backfill,
  normalize_legacy_preferences,
}
use o2ul_portal.Backfill.DryRun.{real}
use o2ul_portal.Backfill.Imported.{proceed-ok}

module _ {X : Type 0} (T : Table PreferencesRecord X) (law : IsTable T)
    (beyond_ascii : Char → Char) where
  finish_preferences-ok :
      (stats last : BackfillStats) (y : X) (w : Result SystemPreferences × X)
      → finish_preferences stats w ≡ ((last, none), y)
      → (q : SystemPreferences) × (w ≡ (ok q, y))
  finish_preferences-ok stats last y (ok q, z) h = (q, λ i. (ok q, (h i).1))
  finish_preferences-ok stats last y (err e, z) h = cc

  upsert-ok :
      (x y : X) (p q : SystemPreferences)
      → Preferences.upsert T x p ≡ (ok q, y)
      → T.set x preferences_key (to_preferences_record p) ≡ (ok tt, y)
  unfolding Preferences.upsert
  upsert-ok x y p q h = ground arith

  normalize-mode :
      (now : ℤ) (src : LegacyPreferences)
      → ((normalize_legacy_preferences beyond_ascii now src).mode ≡ "live")
        ⊎ ((normalize_legacy_preferences beyond_ascii now src).mode ≡ "beta")
  unfolding normalize_legacy_preferences
  normalize-mode now src =
      let mode = to_lower beyond_ascii (trim_space src.mode) in
      ground (arith, eq_iff mode "live", eq_iff mode "beta")

  import_preferences-stored :
      (opts : Options) (now later : ℤ) (x y : X) (stats last : BackfillStats)
      (o : Option LegacyPreferences)
      → import_preferences T beyond_ascii (real opts) now x stats o ≡ ((last, none), y)
      → ((o ≡ none) × (y ≡ x))
        ⊎ ((src : LegacyPreferences) × (o ≡ some src)
            × (Preferences.get T y later ≡ ok (normalize_legacy_preferences beyond_ascii now src)))
  unfolding import_preferences Preferences.get Preferences.read normalize_legacy_preferences
  import_preferences-stored opts now later x y stats last none h = inl (refl, ap (λ z. z.1) (sym h))
  import_preferences-stored opts now later x y stats last (some src) h =
      let p = normalize_legacy_preferences beyond_ascii now src in
      let (q, written) = finish_preferences-ok stats last y (Preferences.upsert T x p) h in
      let found =
        law.set_get x y preferences_key (to_preferences_record p) (upsert-ok x y p q written) in
      inr (src, refl, rw (found, Preferences.get, Preferences.read) refl)

  -- A backfill that succeeds has stored the export's preferences, if there are any, so that the
  -- portal reads them: in mode live or beta, with the built-in OAuth provider only. Without any, the
  -- preferences stay as they were.
  pub execute_backfill-preferences :
      {U S : Type 0} (users : UserRepository U) (profiles : ProfileRepository S) (opts : Options)
      (now later : ℤ) (u : U) (s t : S) (x y : X) (legacy : LegacyExport) (stats : BackfillStats)
      → execute_backfill users profiles T beyond_ascii (real opts) now u s x legacy
        ≡ ((stats, none), (t, y))
      → ((legacy.preferences ≡ none) × (y ≡ x))
        ⊎ ((src : LegacyPreferences) × (p : SystemPreferences) × (legacy.preferences ≡ some src)
            × (Preferences.get T y later ≡ ok p)
            × (p ≡ normalize_legacy_preferences beyond_ascii now src)
            × ((p.mode ≡ "live") ⊎ (p.mode ≡ "beta"))
            × (p.enabled_oauth_providers ≡ built_in_auth_provider ∷ []))
  unfolding execute_backfill
  execute_backfill-preferences {U} {S} users profiles opts now later u s t x y legacy stats h =
      let all = chosen_profiles legacy in
      let r = import_profiles users profiles (real opts) now u s (start_stats (length all)) all in
      let (first, rest) = proceed-ok {S = S × X} (r.0, (r.1, x)) _ stats (t, y) h in
      elim (import_preferences-stored opts now later x y r.0.0 stats legacy.preferences
        (λ i. ((rest i).0, (rest i).1.1))) [
          | inl kept ↦ inl kept
          | inr (src, given, found) ↦ inr (
            src,
            normalize_legacy_preferences beyond_ascii now src,
            given,
            found,
            refl,
            normalize-mode now src,
            unfold normalize_legacy_preferences in refl,
          )
        ]
