-- ===== src/Backfill/Loop.antt =====
-- The counters of the loop over the legacy profiles.
use o2ul_portal.Common.{
  ℕ, suc, ◌+◌, ◌≤◌, Bool, true, false, Option, none, some, List, [], ◌∷◌, ◌≡◌, ◌≢◌, refl, subst, ap,
  arith, length, inl, inr, ◌⊎◌, Error, ◌↔◌, Result, ok, err, if◌then◌else◌,
}
use Prim.Native.Char.{Char}
use o2ul_portal.Common.Int.{ℤ}
use o2ul_portal.Store.{Table}
use o2ul_portal.Accounts.{UserRepository}
use o2ul_portal.Portal.Profiles.{ProfileRepository}
use o2ul_portal.Portal.Preferences.{SystemPreferences, PreferencesRecord}
use o2ul_portal.Backfill.{
  Options, LegacyProfile, LegacyPreferences, LegacyExport, BackfillStats, Outcome, chosen_profiles,
  start_stats, proceed, updated, finish_preferences, then_preferences, import_profile,
  import_profiles, import_preferences, execute_backfill,
}

-- The profiles that were looked at.
abbrev done : BackfillStats → ℕ
done stats = stats.profile_imported + stats.profile_skipped

-- From `a` to `b` the loop has only counted, `n` profiles at most, and exactly `n` without error.
pub record Counts (n : ℕ) (a : BackfillStats) (o : Outcome) : Type 0 where
  pub at_most : done o.0 ≤ done a + n
  pub all_done : o.1 ≡ none → done o.0 ≡ done a + n
  pub same_total : o.0.profile_total ≡ a.profile_total
  pub same_handled : o.0.preference_handled ≡ a.preference_handled
  pub same_updated : o.0.preference_updated ≡ a.preference_updated

pub Counts-proceed :
    {S : Type 0} (n : ℕ) (a : BackfillStats) (r : Outcome × S)
    (next : BackfillStats → S → Outcome × S)
    → Counts 1 a r.0
    → Counts n r.0.0 (next r.0.0 r.1).0
    → Counts (suc n) a (proceed r next).0
Counts-proceed n a ((stats, some e), s) next c d = ground (arith, c.at_most)
Counts-proceed n a ((stats, none), s) next c d = ground (arith, c.all_done refl, d.all_done)

module _ {U S : Type 0} (users : UserRepository U) (profiles : ProfileRepository S) where
  import_profile-Counts :
      (opts : Options) (now : ℤ) (u : U) (s : S) (stats : BackfillStats) (lp : LegacyProfile)
      → Counts 1 stats (import_profile users profiles opts now u s stats lp).0
  unfolding import_profile
  import_profile-Counts opts now u s stats lp = ground arith

  pub import_profiles-Counts :
      (opts : Options) (now : ℤ) (u : U) (s : S) (stats : BackfillStats) (lps : List LegacyProfile)
      → Counts (length lps) stats (import_profiles users profiles opts now u s stats lps).0
  unfolding import_profiles
  import_profiles-Counts opts now u s stats [] = ground arith
  import_profiles-Counts opts now u s stats (lp ∷ lps) =
      let one = import_profile users profiles opts now u s stats lp in
      Counts-proceed (length lps) stats one _ (import_profile-Counts opts now u s stats lp)
        (import_profiles-Counts opts now u one.1 one.0.0 lps)

module _ {U S X : Type 0} (users : UserRepository U) (profiles : ProfileRepository S)
    (T : Table PreferencesRecord X) (beyond_ascii : Char → Char) where
  abbrev IsAccounted : ℕ → Option LegacyPreferences → Outcome → Type 0
  IsAccounted n o (stats, e) =
      (stats.profile_total ≡ n)
      × (done stats ≤ stats.profile_total)
      × ((e ≢ none)
          ⊎ ((done stats ≡ stats.profile_total) × ((stats.preference_updated ≡ true) ↔ (o ≢ none))))

  finish-IsAccounted :
      (dry : Bool) (x : X) (n : ℕ) (stats : BackfillStats) (src : LegacyPreferences)
      (w : Result SystemPreferences × X)
      → Counts n (start_stats n) (stats, none)
      → IsAccounted n
          (some src)
          (if dry then ((updated stats, none), x) else finish_preferences stats w).0
  finish-IsAccounted true x n stats src w c = (
    c.same_total,
    ground (arith, c.all_done refl, c.same_total),
    inr (ground (arith, c.all_done refl, c.same_total), ((λ h k. cc), λ h. refl)),
  )
  finish-IsAccounted false x n stats src (ok p, y) c = (
    c.same_total,
    ground (arith, c.all_done refl, c.same_total),
    inr (ground (arith, c.all_done refl, c.same_total), ((λ h k. cc), λ h. refl)),
  )
  finish-IsAccounted false x n stats src (err e, y) c =
      (c.same_total, ground (arith, c.all_done refl, c.same_total), inl (λ h. cc))

  import_preferences-IsAccounted :
      (opts : Options) (now : ℤ) (x : X) (n : ℕ) (stats : BackfillStats)
      (o : Option LegacyPreferences)
      → Counts n (start_stats n) (stats, none)
      → IsAccounted n o (import_preferences T beyond_ascii opts now x stats o).0
  unfolding import_preferences
  import_preferences-IsAccounted opts now x n stats none c = (
    c.same_total,
    ground (arith, c.all_done refl, c.same_total),
    inr (
      ground (arith, c.all_done refl, c.same_total),
      (λ h. ground (arith, c.same_updated), λ h. absurd (h refl)),
    ),
  )
  import_preferences-IsAccounted opts now x n stats (some src) c =
      finish-IsAccounted opts.dry_run x n stats src _ c

  proceed-IsAccounted :
      (opts : Options) (now : ℤ) (x : X) (n : ℕ) (o : Option LegacyPreferences) (r : Outcome)
      (s : S)
      → Counts n (start_stats n) r
      → IsAccounted n o
          (proceed {S = S × X} (r, (s, x)) (then_preferences T beyond_ascii opts now o)).0
  proceed-IsAccounted opts now x n o (stats, some e) s c =
      (c.same_total, ground (arith, c.at_most, c.same_total), inl (λ h. cc))
  proceed-IsAccounted opts now x n o (stats, none) s c =
      import_preferences-IsAccounted opts now x n stats o c

  -- A backfill never counts more profiles than there are. Without an error each profile was imported
  -- or skipped, and the preferences count as updated exactly if the export has any.
  pub execute_backfill-counts :
      (opts : Options) (now : ℤ) (u : U) (s t : S) (x y : X) (legacy : LegacyExport)
      (stats : BackfillStats) (e : Option Error)
      → execute_backfill users profiles T beyond_ascii opts now u s x legacy ≡ ((stats, e), (t, y))
      → (stats.profile_total ≡ length (chosen_profiles legacy))
        × (stats.profile_imported + stats.profile_skipped ≤ stats.profile_total)
        × ((e ≢ none)
            ⊎ ((stats.profile_imported + stats.profile_skipped ≡ stats.profile_total)
                × ((stats.preference_updated ≡ true) ↔ (legacy.preferences ≢ none))))
  unfolding execute_backfill import_preferences
  execute_backfill-counts opts now u s t x y legacy stats e h =
      let n = length (chosen_profiles legacy) in
      let r =
        import_profiles users profiles opts now u s (start_stats n) (chosen_profiles legacy) in
      subst (IsAccounted n legacy.preferences) (ap (λ z. z.0) h) (
        proceed-IsAccounted opts now x n legacy.preferences r.0 r.1 (
          import_profiles-Counts users profiles opts now u s (start_stats n)
            (chosen_profiles legacy)))
