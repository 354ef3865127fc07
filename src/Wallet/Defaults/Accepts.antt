-- ===== src/Wallet/Defaults/Accepts.antt =====
-- The default guard looks at no assertion but whether it is empty.
use o2ul_portal.Common.{
  String, true, false, ◌≡◌, ◌≢◌, refl, sym, subst, >>=-eq-ok, trim_space, ap, arith, some, eq_iff,
  ◌==◌, [], ◌∷◌, Result, ok, err, lookup, ◌⊎◌, inl, inr,
}
use o2ul_portal.Common.Int.{pos}
use o2ul_portal.Wallet.Guard.{
  Guard, Factor, SpendIntent, factor_device, factor_passkey, factor_guardian, new_guard,
  is_invalid_intent, contains, is_verified, count_approved, approval, authorize,
}
use o2ul_portal.Wallet.HeaderRpc.{Wire, RpcDoer}
use o2ul_portal.Wallet.Defaults.{
  Embedded, WalletParts, default_guard, default_verifiers, non_empty_assertion, load_header_rpc,
  new_default_service_with_profile, new_default_service,
}

abbrev IsDefaultFactor : Factor → Type 0
IsDefaultFactor f = (f ≡ factor_device) ⊎ (f ≡ factor_passkey) ⊎ (f ≡ factor_guardian)

abbrev standard : Guard
standard = record { threshold = pos 2; verifiers = default_verifiers }

-- Every default factor has the one verifier.
verifier-standard :
    (f : Factor) → IsDefaultFactor f → lookup f default_verifiers ≡ some non_empty_assertion
unfolding lookup
verifier-standard f (inl e) = rw e refl
verifier-standard f (inr (inl e)) = rw e refl
verifier-standard f (inr (inr e)) = rw e refl

not_empty : (p : String) → p ≢ "" → (p == "") ≡ false
not_empty p h = ground (arith, eq_iff p "")

abbrev guard_or : Guard → Result WalletParts → Guard
guard_or g (ok parts) = parts.guard
guard_or g (err e) = g

standard-is_verified :
    (intent : SpendIntent) (f : Factor) (p : String)
    → IsDefaultFactor f
    → p ≢ ""
    → is_verified standard intent (record { factor = f; payload = p }) ≡ true
unfolding is_verified
standard-is_verified intent f p hf hp =
    rw (verifier-standard f hf, is_verified) (rw (not_empty p hp) refl)

standard-authorize :
    (intent : SpendIntent) (f g : Factor) (p q : String)
    → is_invalid_intent intent ≡ false
    → IsDefaultFactor f
    → IsDefaultFactor g
    → f ≢ g
    → p ≢ ""
    → q ≢ ""
    → authorize standard intent
        (record { factor = f; payload = p } ∷ record { factor = g; payload = q } ∷ [])
      ≡ ok tt
unfolding authorize approval count_approved contains
standard-authorize intent f g p q valid hf hg ne hp hq =
    let first = standard-is_verified intent f p hf hp in
    let second = standard-is_verified intent g q hg hq in
    ground (arith, eq_iff f g, valid, first, second)

module _ (wire : Wire) (http3_client : RpcDoer) (embedded : Embedded) where
  default_guard-made :
      (raw rpc_url : String) (parts : WalletParts)
      → new_default_service wire http3_client embedded raw rpc_url ≡ ok parts
      → parts.guard ≡ standard
  unfolding new_default_service new_default_service_with_profile default_guard new_guard
  default_guard-made raw rpc_url parts made =
      let (rpc, loaded, rest) =
        >>=-eq-ok (load_header_rpc wire http3_client embedded _ (trim_space rpc_url)) _ made in
      sym (ap (λ (r : Result WalletParts). guard_or standard r) rest)

  -- In the default wallet service any two assertions of different factors authorize any valid spend,
  -- whatever they say, as long as they are not empty.
  pub default_guard-authorize :
      (raw rpc_url : String) (parts : WalletParts) (intent : SpendIntent) (f g : Factor)
      (p q : String)
      → new_default_service wire http3_client embedded raw rpc_url ≡ ok parts
      → is_invalid_intent intent ≡ false
      → IsDefaultFactor f
      → IsDefaultFactor g
      → f ≢ g
      → p ≢ ""
      → q ≢ ""
      → authorize parts.guard intent
          (record { factor = f; payload = p } ∷ record { factor = g; payload = q } ∷ [])
        ≡ ok tt
  default_guard-authorize raw rpc_url parts intent f g p q made valid hf hg ne hp hq =
      subst
        (λ guard.
          authorize guard intent
            (record { factor = f; payload = p } ∷ record { factor = g; payload = q } ∷ [])
          ≡ ok tt)
        (sym (default_guard-made raw rpc_url parts made))
        (standard-authorize intent f g p q valid hf hg ne hp hq)
