-- ===== src/Backfill.antt =====
-- The import of a legacy export (cmd/migrate/o2ul_slice1_backfill.go). The repositories are those of
-- internal/infrastructure/db; the package flag, the file and encoding/json are parameters. A call
-- reads the clock several times and gets the same value each time here.
use o2ul_portal.Common.{
  ℕ, ◌+◌, String, Bool, true, false, not, ◌&&◌, ◌||◌, Option, none, some, List, [], ◌∷◌, ◌==◌,
  is_empty, is_blank, is_nil, concat, trim_space, to_lower, length, if◌then◌else◌, Result, ok, err,
  Error, message, wrapped,
}
use Prim.Native.Char.{Char}
use o2ul_portal.Common.Int.{ℤ, pos}
use o2ul_portal.Store.{Table}
use o2ul_portal.Accounts.{UserRepository}
use o2ul_portal.Portal.Profiles.{Profile, ProfileRepository}
use o2ul_portal.Portal.Profiles.Users.{first_non_empty}
use o2ul_portal.Portal.Preferences.{SystemPreferences, PreferencesRecord, built_in_auth_provider}
use o2ul_portal.Portal.Preferences
pub mod Loop
pub mod DryRun
pub mod Imported
pub mod Preferred

pub record Options : Type 0 where
  pub input_file : String
  pub dry_run : Bool
  pub allow_missing_users : Bool

-- The pointers of the export are options; `bg_image_opacity` holds the bits of a float64.
pub record LegacyProfile : Type 0 where
  pub player_id : String
  pub user_id : String
  pub username : String
  pub name : String
  pub email : String
  pub phone : String
  pub bio : String
  pub image : String
  pub bg_image_url : String
  pub bg_image_storage_id : String
  pub bg_image_opacity : ℕ
  pub is_anonymous : Option Bool
  pub is_online : Option Bool
  pub is_beta_tester : Option Bool
  pub is_hookup_enabled : Option Bool
  pub last_login_date : Option ℤ
  pub last_seen : Option ℤ
  pub created_at : Option ℤ
  pub updated_at : Option ℤ

pub record LegacyPreferences : Type 0 where
  pub mode : String
  pub enable_calling : Option Bool
  pub enabled_oauth_providers : List String
  pub last_updated : Option ℤ
  pub updated_by : String

pub record LegacyExport : Type 0 where
  pub profiles : List LegacyProfile
  pub user_profiles : List LegacyProfile
  pub preferences : Option LegacyPreferences

pub record BackfillStats : Type 0 where
  pub profile_total : ℕ
  pub profile_imported : ℕ
  pub profile_skipped : ℕ
  pub preference_handled : Bool
  pub preference_updated : Bool

abbrev pub or_else {ℓ} : {A : Type ℓ} → A → Option A → A
or_else fallback (some a) = a
or_else fallback none = fallback

-- what the flags `--input`, `--dry-run` and `--allow-missing-users` were set to
pub record Flags : Type 0 where
  pub input : String
  pub dry_run : Bool
  pub allow_missing : Bool

unfoldable pub parse_backfill_flags : (List String → Result Flags) → List String → Result Options
parse_backfill_flags parse arguments = elim (parse arguments) [
  | err e ↦ err e
  | ok flags ↦
      if is_blank flags.input
      then err (message "--input is required")
      else ok (record {
        input_file = trim_space flags.input;
        dry_run = flags.dry_run;
        allow_missing_users = flags.allow_missing;
      })
]

unfoldable pub load_legacy_export :
    (String → Result String) → (String → Result LegacyExport) → String → Result LegacyExport
load_legacy_export read_file unmarshal path = elim (read_file path) [
  | err e ↦ err (wrapped "read input file" e)
  | ok bytes ↦ elim (unmarshal bytes) [
    | err e ↦ err (wrapped "decode input json" e)
    | ok legacy ↦ ok legacy
  ]
]

unfoldable pub legacy_id : LegacyProfile → String
legacy_id lp = trim_space (first_non_empty (lp.player_id ∷ lp.user_id ∷ []))

unfoldable pub profile_of_legacy : ℤ → LegacyProfile → Profile
profile_of_legacy now lp = record {
  player_id = legacy_id lp;
  username = trim_space lp.username;
  name = trim_space lp.name;
  email = trim_space lp.email;
  image = trim_space lp.image;
  bio = trim_space lp.bio;
  phone = trim_space lp.phone;
  bg_image_url = trim_space lp.bg_image_url;
  bg_image_storage_id = trim_space lp.bg_image_storage_id;
  bg_image_opacity = lp.bg_image_opacity;
  is_anonymous = or_else false lp.is_anonymous;
  is_online = or_else false lp.is_online;
  is_beta_tester = or_else false lp.is_beta_tester;
  is_hookup_enabled = or_else false lp.is_hookup_enabled;
  last_login_date_unix = or_else (pos 0) lp.last_login_date;
  last_seen_unix = or_else (pos 0) lp.last_seen;
  created_at_unix = or_else now lp.created_at;
  updated_at_unix = or_else now lp.updated_at;
}

unfoldable pub normalize_legacy_preferences :
    (Char → Char) → ℤ → LegacyPreferences → SystemPreferences
normalize_legacy_preferences beyond_ascii now src =
    let mode = to_lower beyond_ascii (trim_space src.mode) in
    let updated_by = trim_space src.updated_by in
    record {
      mode = if not (mode == "live") && not (mode == "beta") then "live" else mode;
      enable_calling = or_else false src.enable_calling;
      enabled_oauth_providers = built_in_auth_provider ∷ [];
      last_updated_unix = or_else now src.last_updated;
      updated_by = if updated_by == "" then "migration" else updated_by;
    }

abbrev pub imported : BackfillStats → BackfillStats
imported stats = record stats { profile_imported = stats.profile_imported + 1 }

abbrev pub skipped : BackfillStats → BackfillStats
skipped stats = record stats { profile_skipped = stats.profile_skipped + 1 }

-- The statistics, and the error if there is one.
abbrev pub Outcome : Type 0
Outcome = BackfillStats × Option Error

abbrev pub is_known {ℓ} : {A : Type ℓ} → Result A → Bool
is_known (ok a) = true
is_known (err e) = false

abbrev pub chosen_profiles : LegacyExport → List LegacyProfile
chosen_profiles legacy = if is_nil legacy.profiles then legacy.user_profiles else legacy.profiles

abbrev pub start_stats : ℕ → BackfillStats
start_stats total = record {
  profile_total = total;
  profile_imported = 0;
  profile_skipped = 0;
  preference_handled = false;
  preference_updated = false;
}

-- `if err != nil { return stats, err }`
abbrev pub proceed : {S : Type 0} → Outcome × S → (BackfillStats → S → Outcome × S) → Outcome × S
proceed ((stats, some e), s) next = ((stats, some e), s)
proceed ((stats, none), s) next = next stats s

module _ {U S : Type 0} (users : UserRepository U) (profiles : ProfileRepository S) where
  -- whether a profile is imported: it names a player, who exists or need not
  unfoldable pub is_eligible : Bool → U → LegacyProfile → Bool
  is_eligible allow_missing_users u lp =
      not (legacy_id lp == "") && (is_known (users.by_id u (legacy_id lp)) || allow_missing_users)

  -- one round of the loop of executeBackfill
  unfoldable pub import_profile : Options → ℤ → U → S → BackfillStats → LegacyProfile → Outcome × S
  import_profile opts now u s stats lp =
      if not (is_eligible opts.allow_missing_users u lp)
      then ((skipped stats, none), s)
      else if opts.dry_run
      then ((imported stats, none), s)
      else let (written, t) = profiles.upsert s (profile_of_legacy now lp) in
        elim written [
          | ok p ↦ ((imported stats, none), t)
          | err e ↦ ((stats, some (wrapped (concat "upsert o2ul profile " (legacy_id lp)) e)), t)
        ]

  unfoldable pub import_profiles :
      Options → ℤ → U → S → BackfillStats → List LegacyProfile → Outcome × S
  import_profiles opts now u s stats [] = ((stats, none), s)
  import_profiles opts now u s stats (lp ∷ lps) =
      proceed (import_profile opts now u s stats lp)
        (λ stats' t. import_profiles opts now u t stats' lps)

abbrev pub handled : BackfillStats → BackfillStats
handled stats = record stats { preference_handled = true }

abbrev pub updated : BackfillStats → BackfillStats
updated stats = record stats { preference_handled = true; preference_updated = true }

abbrev pub finish_preferences :
    {X : Type 0} → BackfillStats → Result SystemPreferences × X → Outcome × X
finish_preferences stats (ok p, y) = ((updated stats, none), y)
finish_preferences stats (err e, y) =
    ((handled stats, some (wrapped "upsert o2ul preferences" e)), y)

module _ {X : Type 0} (T : Table PreferencesRecord X) (beyond_ascii : Char → Char) where
  unfoldable pub import_preferences :
      Options → ℤ → X → BackfillStats → Option LegacyPreferences → Outcome × X
  import_preferences opts now x stats none = ((stats, none), x)
  import_preferences opts now x stats (some src) =
      if opts.dry_run
      then ((updated stats, none), x)
      else finish_preferences stats
          (Preferences.upsert T x (normalize_legacy_preferences beyond_ascii now src))

  abbrev pub then_preferences :
      {S : Type 0}
      → Options
      → ℤ
      → Option LegacyPreferences
      → BackfillStats
      → S × X
      → Outcome × (S × X)
  then_preferences opts now preferences stats (t, x) =
      let (last, y) = import_preferences opts now x stats preferences in (last, (t, y))

module _ {U S X : Type 0} (users : UserRepository U) (profiles : ProfileRepository S)
    (T : Table PreferencesRecord X) (beyond_ascii : Char → Char) where
  -- the users are only read
  unfoldable pub execute_backfill : Options → ℤ → U → S → X → LegacyExport → Outcome × (S × X)
  execute_backfill opts now u s x legacy =
      let chosen = chosen_profiles legacy in
      let (outcome, t) =
        import_profiles users profiles opts now u s (start_stats (length chosen)) chosen in
      proceed {S = S × X} (outcome, (t, x))
        (then_preferences T beyond_ascii opts now legacy.preferences)

  -- the command; its last log line is left out
  unfoldable pub run_backfill :
      (List String → Result Flags)
      → (String → Result String)
      → (String → Result LegacyExport)
      → ℤ
      → U
      → S
      → X
      → List String
      → Option Error × (S × X)
  run_backfill parse read_file unmarshal now u s x arguments =
      elim (parse_backfill_flags parse arguments) [
        | err e ↦ (some e, (s, x))
        | ok opts ↦ elim (load_legacy_export read_file unmarshal opts.input_file) [
          | err e ↦ (some e, (s, x))
          | ok legacy ↦
              let (outcome, after) = execute_backfill opts now u s x legacy in (outcome.1, after)
        ]
      ]
