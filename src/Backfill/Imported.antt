-- ===== src/Backfill/Imported.antt =====
-- The profiles that a backfill that succeeds has stored.
use o2ul_portal.Common.{false, Option, none, some, [], ◌∷◌, ◌≡◌, refl, ◌⊎◌, trim_space}
use Prim.Native.Char.{Char}
use o2ul_portal.Common.Int.{ℤ, pos}
use o2ul_portal.Portal.Profiles.{Profile}
use o2ul_portal.Portal.Profiles.Users.{first_non_empty}
use o2ul_portal.Backfill.{LegacyProfile, BackfillStats, Outcome, proceed}

-- A time or flag of the export that may be missing, and what stands for it then.
abbrev pub GivenOr : {A : Type 0} → A → Option A → A → Type 0
GivenOr default given a = ((given ≡ some a)) ⊎ ((given ≡ none) × (a ≡ default))

-- `p` is the profile of the export's `lp`, field by field, for an import at the time `now`.
pub record IsProfileOf (now : ℤ) (lp : LegacyProfile) (p : Profile) : Type 0 where
  pub named : p.player_id ≡ trim_space (first_non_empty (lp.player_id ∷ lp.user_id ∷ []))
  pub username_same : p.username ≡ trim_space lp.username
  pub name_same : p.name ≡ trim_space lp.name
  pub email_same : p.email ≡ trim_space lp.email
  pub image_same : p.image ≡ trim_space lp.image
  pub bio_same : p.bio ≡ trim_space lp.bio
  pub phone_same : p.phone ≡ trim_space lp.phone
  pub bg_image_url_same : p.bg_image_url ≡ trim_space lp.bg_image_url
  pub bg_image_storage_id_same : p.bg_image_storage_id ≡ trim_space lp.bg_image_storage_id
  pub bg_image_opacity_same : p.bg_image_opacity ≡ lp.bg_image_opacity
  pub anonymous : GivenOr false lp.is_anonymous p.is_anonymous
  pub online : GivenOr false lp.is_online p.is_online
  pub beta_tester : GivenOr false lp.is_beta_tester p.is_beta_tester
  pub hookup_enabled : GivenOr false lp.is_hookup_enabled p.is_hookup_enabled
  pub last_login : GivenOr (pos 0) lp.last_login_date p.last_login_date_unix
  pub last_seen_then : GivenOr (pos 0) lp.last_seen p.last_seen_unix
  pub created : GivenOr now lp.created_at p.created_at_unix
  pub updated : GivenOr now lp.updated_at p.updated_at_unix

pub proceed-ok :
    {S : Type 0} (r : Outcome × S) (next : BackfillStats → S → Outcome × S) (stats : BackfillStats)
    (t : S)
    → proceed r next ≡ ((stats, none), t)
    → (r.0.1 ≡ none) × (next r.0.0 r.1 ≡ ((stats, none), t))
proceed-ok ((st, some e), s) next stats t h = cc
proceed-ok ((st, none), s) next stats t h = (refl, h)
