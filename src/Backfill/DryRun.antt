-- ===== src/Backfill/DryRun.antt =====
-- A dry run writes nothing and foretells the statistics of the import.
use o2ul_portal.Common.{
  true, false, Option, none, some, List, [], ◌∷◌, ◌≡◌, ◌≢◌, refl, ap, arith, length, inl, inr, ◌⊎◌,
  Error, Result, ok, err, if◌then◌else◌, subst,
}
use Prim.Native.Char.{Char}
use o2ul_portal.Common.Int.{ℤ}
use o2ul_portal.Store.{Table}
use o2ul_portal.Accounts.{UserRepository}
use o2ul_portal.Portal.Profiles.{ProfileRepository}
use o2ul_portal.Portal.Preferences.{PreferencesRecord, SystemPreferences}
use o2ul_portal.Backfill.{
  Options, LegacyProfile, LegacyPreferences, LegacyExport, BackfillStats, Outcome, chosen_profiles,
  start_stats, proceed, imported, skipped, updated, is_eligible, import_profile, import_profiles,
  import_preferences, finish_preferences, execute_backfill,
}

abbrev pub dry : Options → Options
dry opts = record opts { dry_run = true }

abbrev pub real : Options → Options
real opts = record opts { dry_run = false }

-- Without an error the statistics are these.
abbrev Foretold : BackfillStats → Outcome → Type 0
Foretold stats o = (o.1 ≢ none) ⊎ (o.0 ≡ stats)

proceed-Foretold :
    {Q : Type 0} (a b : BackfillStats) (r : Outcome × Q) (next : BackfillStats → Q → Outcome × Q)
    → Foretold a r.0
    → Foretold b (next a r.1).0
    → Foretold b (proceed r next).0
proceed-Foretold a b ((stats, some e), t) next h k = inl (λ x. cc)
proceed-Foretold a b ((stats, none), t) next (inl h) k = absurd (h refl)
proceed-Foretold a b ((stats, none), t) next (inr h) k = rw h k

module _ {U S : Type 0} (users : UserRepository U) (profiles : ProfileRepository S) where
  -- The statistics, by eligibility alone.
  tally_one : Options → U → BackfillStats → LegacyProfile → BackfillStats
  tally_one opts u stats lp =
      if is_eligible users profiles opts.allow_missing_users u lp
      then imported stats
      else skipped stats

  tally : Options → U → BackfillStats → List LegacyProfile → BackfillStats
  tally opts u stats [] = stats
  tally opts u stats (lp ∷ lps) = tally opts u (tally_one opts u stats lp) lps

  import_profile-dry :
      (opts : Options) (now : ℤ) (u : U) (s : S) (stats : BackfillStats) (lp : LegacyProfile)
      → import_profile users profiles (dry opts) now u s stats lp
        ≡ ((tally_one opts u stats lp, none), s)
  unfolding import_profile tally_one
  import_profile-dry opts now u s stats lp = ground arith

  import_profile-real :
      (opts : Options) (now : ℤ) (u : U) (s : S) (stats : BackfillStats) (lp : LegacyProfile)
      → let r = import_profile users profiles (real opts) now u s stats lp in
        (r.0.1 ≢ none) ⊎ (r.0.0 ≡ tally_one opts u stats lp)
  unfolding import_profile tally_one
  import_profile-real opts now u s stats lp = ground arith

  import_profiles-dry :
      (opts : Options) (now : ℤ) (u : U) (s : S) (stats : BackfillStats) (lps : List LegacyProfile)
      → import_profiles users profiles (dry opts) now u s stats lps
        ≡ ((tally opts u stats lps, none), s)
  unfolding import_profiles tally
  import_profiles-dry opts now u s stats [] = refl
  import_profiles-dry opts now u s stats (lp ∷ lps) =
      rw (import_profile-dry opts now u s stats lp)
        (import_profiles-dry opts now u s (tally_one opts u stats lp) lps)

  import_profiles-real :
      (opts : Options) (now : ℤ) (u : U) (s : S) (stats : BackfillStats) (lps : List LegacyProfile)
      → Foretold
          (tally opts u stats lps)
          (import_profiles users profiles (real opts) now u s stats lps).0
  unfolding import_profiles tally
  import_profiles-real opts now u s stats [] = inr refl
  import_profiles-real opts now u s stats (lp ∷ lps) =
      proceed-Foretold _ _ (import_profile users profiles (real opts) now u s stats lp) _
        (import_profile-real opts now u s stats lp)
        (import_profiles-real opts now u
          (import_profile users profiles (real opts) now u s stats lp).1 (tally_one opts u stats lp)
          lps)

module _ {U S X : Type 0} (users : UserRepository U) (profiles : ProfileRepository S)
    (T : Table PreferencesRecord X) (beyond_ascii : Char → Char) where
  -- the statistics with the preferences
  foretell : BackfillStats → Option LegacyPreferences → BackfillStats
  foretell stats none = stats
  foretell stats (some src) = updated stats

  finish-Foretold :
      (stats : BackfillStats) (w : Result SystemPreferences × X)
      → Foretold (updated stats) (finish_preferences stats w).0
  finish-Foretold stats (ok p, y) = inr refl
  finish-Foretold stats (err e, y) = inl (λ h. cc)

  import_preferences-dry :
      (opts : Options) (now : ℤ) (x : X) (stats : BackfillStats) (o : Option LegacyPreferences)
      → import_preferences T beyond_ascii (dry opts) now x stats o ≡ ((foretell stats o, none), x)
  unfolding import_preferences foretell
  import_preferences-dry opts now x stats none = refl
  import_preferences-dry opts now x stats (some src) = refl

  import_preferences-real :
      (opts : Options) (now : ℤ) (x : X) (stats : BackfillStats) (o : Option LegacyPreferences)
      → Foretold (foretell stats o) (import_preferences T beyond_ascii (real opts) now x stats o).0
  unfolding import_preferences foretell
  import_preferences-real opts now x stats none = inr refl
  import_preferences-real opts now x stats (some src) = finish-Foretold stats _

  -- Whatever comes of a backfill, the dry run of it succeeds and leaves the profiles and the
  -- preferences as they were; and if the backfill succeeds, the dry run gives the same statistics.
  pub execute_backfill-dry_run :
      (opts : Options) (now : ℤ) (u : U) (s t : S) (x y : X) (legacy : LegacyExport)
      (stats : BackfillStats) (e : Option Error)
      → execute_backfill users profiles T beyond_ascii (real opts) now u s x legacy
        ≡ ((stats, e), (t, y))
      → (foretold : BackfillStats) × (execute_backfill users profiles T beyond_ascii
            (dry opts)
            now
            u
            s
            x
            legacy
          ≡ ((foretold, none), (s, x)))
        × ((e ≢ none) ⊎ (stats ≡ foretold))
  unfolding execute_backfill
  execute_backfill-dry_run opts now u s t x y legacy stats e h =
      let chosen = chosen_profiles legacy in
      let first = start_stats (length chosen) in
      let counted = tally users profiles opts u first chosen in
      let r = import_profiles users profiles (real opts) now u s first chosen in
      (
        foretell counted legacy.preferences,
        rw (import_profiles-dry users profiles opts now u s first chosen)
            (rw (import_preferences-dry opts now x counted legacy.preferences) refl),
        subst (Foretold (foretell counted legacy.preferences)) (ap (λ z. z.0) h) (
            proceed-Foretold {Q = S × X} counted (foretell counted legacy.preferences)
              (r.0, (r.1, x)) _ (import_profiles-real users profiles opts now u s first chosen)
              (import_preferences-real opts now x counted legacy.preferences)),
      )
