-- ===== src/Wallet/Prover/Backends.antt =====
-- Which backend a proof can come from.
use o2ul_portal.Common.{
  String, true, false, ◌≡◌, ap, sym, ◌∙◌, ◌≢◌, ◌⊎◌, inl, inr, some, arith, eq_iff, ◌==◌, is_empty,
  Option-cases, Result-cases, Bool-cases, ok, fail_if-eq-ok,
}
use mathlib.Core.Bool.{false≢true}
use o2ul_portal.Wallet.Prover.{
  Bytes, Request, Mode, mode_local, mode_delegated, LocalProver, DelegatedProver, PairingRegistry,
  Client, generate_delegated, generate_local, generate_auto, generate_by, generate_proof,
}

-- The local prover made it.
pub record MadeLocally (c : Client) (req : Request) (proof : Bytes) : Type 0 where
  pub local : LocalProver
  pub present : c.local ≡ some local
  pub made : local req.circuit_id req.witness ≡ ok proof

-- The delegated prover made it, on a device that the registry lists.
pub record MadeByDevice (c : Client) (req : Request) (proof : Bytes) : Type 0 where
  pub delegate : DelegatedProver
  pub present : c.delegate ≡ some delegate
  pub pairs : PairingRegistry
  pub registry : c.pairs ≡ some pairs
  pub paired : pairs req.paired_device_id ≡ true
  pub named : req.paired_device_id ≢ ""
  pub made : delegate req.paired_device_id req.circuit_id req.witness ≡ ok proof

generate_local-Made :
    (c : Client) (req : Request) (proof : Bytes)
    → generate_local c req ≡ ok proof
    → MadeLocally c req proof
unfolding generate_local
generate_local-Made c req proof h = elim (Option-cases c.local) [
  | inl e ↦ cc (rw (e, generate_local) at h)
  | inr (local, e) ↦ record { local = local; present = e; made = rw (e, generate_local) at h }
]

generate_delegated-Made :
    (c : Client) (req : Request) (proof : Bytes)
    → generate_delegated c req ≡ ok proof
    → MadeByDevice c req proof
unfolding generate_delegated
generate_delegated-Made c req proof h = elim (Option-cases c.delegate) [
  | inl e ↦ ground arith
  | inr (delegate, e) ↦ elim (Option-cases c.pairs) [
    | inl f ↦ ground arith
    | inr (pairs, f) ↦ record {
      delegate = delegate;
      present = e;
      pairs = pairs;
      registry = f;
      paired = ground arith;
      named = λ p. ground (arith, eq_iff req.paired_device_id "");
      made = ground arith;
    }
  ]
]

generate_auto-Made :
    (c : Client) (req : Request) (proof : Bytes)
    → generate_auto c req ≡ ok proof
    → MadeLocally c req proof ⊎ MadeByDevice c req proof
unfolding generate_auto
generate_auto-Made c req proof h = elim (Option-cases c.local) [
  | inl e ↦ inr (generate_delegated-Made c req proof (rw (e, generate_auto) at h))
  | inr (local, e) ↦ elim (Result-cases (local req.circuit_id req.witness)) [
    | inl (made, f) ↦ inl (record { local = local; present = e; made = ground arith })
    | inr (x, f) ↦ inr (generate_delegated-Made c req proof (ground arith))
  ]
]

generate_by-Made :
    (c : Client) (mode : Mode) (req : Request) (proof : Bytes)
    → generate_by c mode req ≡ ok proof
    → ((mode ≢ mode_delegated) × MadeLocally c req proof)
      ⊎ ((mode ≢ mode_local) × MadeByDevice c req proof)
unfolding generate_by
generate_by-Made c mode req proof h = elim (Bool-cases (mode == mode_local)) [
  | inl l ↦ inl (local_not_delegated mode l, generate_local-Made c req proof (by_local l h))
  | inr l ↦ elim (Bool-cases (mode == mode_delegated)) [
    | inl d ↦
        inr (ne_of_test mode mode_local l, generate_delegated-Made c req proof (by_delegated l d h))
    | inr d ↦ elim (generate_auto-Made c req proof (by_auto l d h)) [
      | inl made ↦ inl (ne_of_test mode mode_delegated d, made)
      | inr made ↦ inr (ne_of_test mode mode_local l, made)
    ]
  ]
]
  where
    ne_of_test : (s t : String) → (s == t) ≡ false → s ≢ t
    ne_of_test s t e p = ground (arith, eq_iff s t)

    local_not_delegated : (m : Mode) → (m == mode_local) ≡ true → m ≢ mode_delegated
    local_not_delegated m l e =
        ground (arith, eq_iff m mode_local, eq_iff mode_local mode_delegated)

    by_local :
        (mode == mode_local) ≡ true
        → generate_by c mode req ≡ ok proof
        → generate_local c req ≡ ok proof
    by_local l h = ground arith

    by_delegated :
        (mode == mode_local) ≡ false
        → (mode == mode_delegated) ≡ true
        → generate_by c mode req ≡ ok proof
        → generate_delegated c req ≡ ok proof
    by_delegated l d h = ground arith

    by_auto :
        (mode == mode_local) ≡ false
        → (mode == mode_delegated) ≡ false
        → generate_by c mode req ≡ ok proof
        → generate_auto c req ≡ ok proof
    by_auto l d h = ground arith

-- A proof that GenerateProof returns was made by the local prover, and then the mode is not
-- "delegated", or by the delegated prover for a non-empty device name that the pairing registry
-- lists, and then the mode is not "local". The circuit and the witness are not empty.
pub generate_proof-Made :
    (c : Client) (mode : Mode) (req : Request) (proof : Bytes)
    → generate_proof c mode req ≡ ok proof
    → (req.circuit_id ≢ "")
      × (req.witness ≢ "")
      × (((mode ≢ mode_delegated) × MadeLocally c req proof)
          ⊎ ((mode ≢ mode_local) × MadeByDevice c req proof))
unfolding generate_proof
generate_proof-Made c mode req proof h =
    let (circuit, rest) = (fail_if-eq-ok _ _ _ proof).0 h in
    let (witness, chosen) = (fail_if-eq-ok _ _ _ proof).0 rest in
    (
      λ e. ground (arith, eq_iff req.circuit_id ""),
      λ e. false≢true (sym witness ∙ ap is_empty e),
      generate_by-Made c mode req proof chosen,
    )
