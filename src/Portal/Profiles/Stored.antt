-- ===== src/Portal/Profiles/Stored.antt =====
-- What the profile operations store, read back through the repository.
use o2ul_portal.Common.{
  String, true, false, ◌≡◌, refl, ◌≢◌, sym, ap, ◌∙◌, subst, arith, eq_iff, ◌==◌, inl, inr, ◌⊎◌,
  Bool-cases, Result-cases, Result, ok, err, is_blank, Map,
}
use o2ul_portal.Common.Int.{ℤ}
use o2ul_portal.Store.{Table, IsTable}
use o2ul_portal.Accounts.{UserRepository}
use o2ul_portal.Portal.Profiles.{
  Profile, ProfileRecord, ProfileRepository, to_profile_record, get_by_player_id, upsert,
  strata_profiles,
}
use o2ul_portal.Portal.Profiles.Users.{PatchValue, profile_of, apply_profile_patch, update_profile}
use o2ul_portal.Portal.Profiles.AuthSync.{
  sign_in, sign_out, synced, finish_sync, apply_action, sync_profile,
}

-- A profile that was written is read back under its id.
pub record IsProfileRepository {S : Type 0} (R : ProfileRepository S) : Type 0 where
  pub upsert_get :
      (s t : S) (p q : Profile)
      → R.upsert s p ≡ (ok q, t)
      → (q ≡ p) × (R.get_by_player_id t p.player_id ≡ ok p)
  pub upsert_other :
      (s t : S) (p q : Profile) (id : String)
      → R.upsert s p ≡ (ok q, t)
      → p.player_id ≢ id
      → R.get_by_player_id t id ≡ R.get_by_player_id s id

module _ {S : Type 0} (T : Table ProfileRecord S) (law : IsTable T) where
  upsert-set :
      (s t : S) (p q : Profile)
      → upsert T s p ≡ (ok q, t)
      → (q ≡ p) × (T.set s p.player_id (to_profile_record p) ≡ (ok tt, t))
  unfolding upsert
  upsert-set s t p q h = ground arith

  -- The profiles of a strata table are a profile repository.
  pub strata_profiles-IsProfileRepository : IsProfileRepository (strata_profiles T)
  unfolding get_by_player_id
  strata_profiles-IsProfileRepository = record {
    upsert_get = λ s t p q h.
        let (same, set) = upsert-set s t p q h in
        (same, rw (law.set_get s t p.player_id (to_profile_record p) set, get_by_player_id) refl);
    upsert_other = λ s t p q id h ne.
        let (same, set) = upsert-set s t p q h in
        rw (law.set_other s t p.player_id id (to_profile_record p) set ne, get_by_player_id) refl;
  }

module _ {U S : Type 0} (users : UserRepository U) (profiles : ProfileRepository S)
    (law : IsProfileRepository profiles) where
  -- UpdateProfile stores the patched profile of the caller, under the caller's id whatever the
  -- patch says, and no other profile changes.
  pub update_profile-stored :
      (s t : S) (now : ℤ) (caller other : String) (patch : Map PatchValue) (p : Profile)
      → caller ≢ other
      → update_profile users profiles s now caller patch ≡ (ok p, t)
      → (profiles.get_by_player_id t caller ≡ ok p)
        × (p.player_id ≡ caller)
        × (p.updated_at_unix ≡ now)
        × (p.is_beta_tester ≡ (profile_of users profiles s caller).is_beta_tester)
        × (profiles.get_by_player_id t other ≡ profiles.get_by_player_id s other)
  unfolding update_profile apply_profile_patch
  update_profile-stored s t now caller other patch p ne h =
      let (same, found) = law.upsert_get s t _ p h in
      (
        found ∙ ap ok (sym same),
        ap (λ q. q.player_id) same,
        ap (λ q. q.updated_at_unix) same,
        ap (λ q. q.is_beta_tester) same,
        law.upsert_other s t _ p other h ne,
      )

  finish_sync-ok :
      (caller : String) (x : Result Profile × S) (id : String) (t : S)
      → finish_sync caller x ≡ (ok id, t)
      → (q : Profile) × (x ≡ (ok q, t)) × (id ≡ caller)
  unfolding finish_sync
  finish_sync-ok caller (ok q, t2) id t h = (q, ground arith, ground arith)
  finish_sync-ok caller (err e, t2) id t h = ground arith

  apply_action-ok :
      (now : ℤ) (action : String) (p q : Profile)
      → apply_action now action p ≡ ok q
      → (q.player_id ≡ p.player_id)
        × (q.last_seen_unix ≡ p.last_seen_unix)
        × (((action ≡ sign_in) × (q.is_online ≡ true))
            ⊎ ((action ≡ sign_out) × (q.is_online ≡ false)))
  unfolding apply_action
  apply_action-ok now action p q h = elim (Bool-cases (action == sign_in)) [
    | inl e ↦ (ground arith, ground arith, inl ((eq_iff action sign_in).0 e, ground arith))
    | inr e ↦ elim (Bool-cases (action == sign_out)) [
      | inl f ↦ (ground arith, ground arith, inr ((eq_iff action sign_out).0 f, ground arith))
      | inr f ↦ ground arith
    ]
  ]

  -- A profile sync that succeeds leaves the caller's stored profile online after a sign-in and
  -- offline after a sign-out, last seen now, and no other profile changes.
  pub sync_profile-stored :
      (u : U) (s t : S) (now : ℤ) (caller other action id : String)
      → caller ≢ other
      → sync_profile users profiles u s now caller action ≡ (ok id, t)
      → (p : Profile) × (profiles.get_by_player_id t caller ≡ ok p)
        × (p.last_seen_unix ≡ now)
        × (((action ≡ sign_in) × (p.is_online ≡ true))
            ⊎ ((action ≡ sign_out) × (p.is_online ≡ false)))
        × (id ≡ caller)
        × (profiles.get_by_player_id t other ≡ profiles.get_by_player_id s other)
  unfolding sync_profile synced
  sync_profile-stored u s t now caller other action id ne h = elim (Bool-cases (is_blank caller)) [
    | inl e ↦ ground arith
    | inr e ↦ elim (Result-cases (users.by_id u caller)) [
      | inr (x, f) ↦ ground arith
      | inl (user, f) ↦
          let before = synced now caller user (profile_of users profiles s caller) in
          elim (Result-cases (apply_action now action before)) [
            | inr (x, g) ↦ ground arith
            | inl (p, g) ↦
                let (owner, seen, online) = apply_action-ok now action before p g in
                let k : finish_sync caller (profiles.upsert s p) ≡ (ok id, t) = ground arith in
                let (q, written, named) = finish_sync-ok caller (profiles.upsert s p) id t k in
                let (_, found) = law.upsert_get s t p q written in
                let kept = law.upsert_other s t p q other written (λ e2. ne (sym owner ∙ e2)) in
                (
                  p,
                  subst (λ i. profiles.get_by_player_id t i ≡ ok p) owner found,
                  seen,
                  online,
                  named,
                  kept,
                )
          ]
    ]
  ]
