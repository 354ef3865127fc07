-- ===== src/Portal/Preferences/Admin.antt =====
-- Only administrators change the system preferences.
use o2ul_portal.Common.{
  String, Bool, true, false, ◌≡◌, refl, ◌≢◌, sym, ap, List, [], ◌∷◌, arith, eq_iff, ◌==◌, inl, inr,
  Bool-cases, ok, err,
}
use o2ul_portal.Common.Int.{ℤ}
use o2ul_portal.Domain.Role.{Role, can_act_as, role_admin}
use o2ul_portal.Store.{Table, IsTable}
use o2ul_portal.Portal.Preferences.{
  SystemPreferences, PreferencesRecord, built_in_auth_provider, to_preferences_record,
  preferences_key, stamped, is_listed, admin_required, read, upsert, get, current, update_mode,
  update_calling_state, update_oauth_providers, is_oauth_provider_enabled,
}

module _ {S : Type 0} (T : Table PreferencesRecord S) where
  -- Who cannot act as an administrator is refused by all three updates, and nothing changes.
  pub update_refused :
      (s : S) (now : ℤ) (caller : String) (role : Role) (mode : String) (enabled : Bool)
      (providers : List String)
      → can_act_as role role_admin ≡ false
      → (update_mode T s now caller role mode ≡ (err admin_required, s))
        × (update_calling_state T s now caller role enabled ≡ (err admin_required, s))
        × (update_oauth_providers T s now caller role providers ≡ (err admin_required, s))
  unfolding update_mode update_calling_state update_oauth_providers
  update_refused s now caller role mode enabled providers h = (
    rw (h, update_mode) refl,
    rw (h, update_calling_state) refl,
    rw (h, update_oauth_providers) refl,
  )

  upsert-get :
      IsTable T
      → (s t : S) (later : ℤ) (p q : SystemPreferences)
      → upsert T s (record p { enabled_oauth_providers = built_in_auth_provider ∷ [] }) ≡ (ok q, t)
      → (get T t later ≡ ok q)
        × (q ≡ record p { enabled_oauth_providers = built_in_auth_provider ∷ [] })
  unfolding upsert get read
  upsert-get law s t later p q h =
      let made : SystemPreferences = record p {
        enabled_oauth_providers = built_in_auth_provider ∷ [];
      } in
      let same : q ≡ made = ground arith in
      let set : T.set s preferences_key (to_preferences_record made) ≡ (ok tt, t) = ground arith in
      (
        rw (law.set_get s t preferences_key (to_preferences_record made) set, get, read)
            (ap ok (sym same)),
        same,
      )

  -- An administrator's change of the mode is read back, with the caller's name and the time on it;
  -- the calling state is kept, and of the OAuth providers only the built-in one is enabled.
  pub update_mode-get :
      IsTable T
      → (s t : S) (now later : ℤ) (caller : String) (role : Role) (mode provider : String)
        (q : SystemPreferences)
      → provider ≢ built_in_auth_provider
      → update_mode T s now caller role mode ≡ (ok q, t)
      → (can_act_as role role_admin ≡ true)
        × (get T t later ≡ ok q)
        × (q.mode ≡ mode)
        × (q.enable_calling ≡ (current T s now).enable_calling)
        × (q.updated_by ≡ caller)
        × (q.last_updated_unix ≡ now)
        × (is_oauth_provider_enabled T t later provider ≡ ok false)
  unfolding update_mode is_oauth_provider_enabled is_listed
  update_mode-get law s t now later caller role mode provider q ne h =
      elim (Bool-cases (can_act_as role role_admin)) [
        | inr e ↦ ground arith
        | inl e ↦
            let p : SystemPreferences =
              stamped caller now (record (current T s now) { mode = mode }) in
            let k : upsert T s (record p { enabled_oauth_providers = built_in_auth_provider ∷ [] })
                ≡ (ok q, t) =
              ground arith in
            let (found, same) = upsert-get law s t later p q k in
            let no : (provider == built_in_auth_provider) ≡ false =
              ground (arith, eq_iff provider built_in_auth_provider) in
            let no2 : (built_in_auth_provider == provider) ≡ false =
              ground (arith, eq_iff built_in_auth_provider provider) in
            (
              e,
              found,
              ap (λ r. r.mode) same,
              ap (λ r. r.enable_calling) same,
              ap (λ r. r.updated_by) same,
              ap (λ r. r.last_updated_unix) same,
              rw (no, is_oauth_provider_enabled) (rw found (rw same (rw (no2, is_listed) refl))),
            )
      ]
