-- ===== src/Wallet/Service/Prove.antt =====
-- `VerifyAuthorizeAndProve`: the light client, the guard and the prover in one call. Its parts
-- VerifyClientAgainstRange, AuthorizeSpend and GenerateSpendProof only pass on to the three.
use o2ul_portal.Common.{
  ℕ, ◌+◌, ◌<◌, ◌≤◌, String, ◌≡◌, refl, ◌↔◌, Option, none, some, List, Result, ok, err, >>-eq-ok,
  ◌>>◌,
}
use o2ul_portal.Wallet.Guard.{Guard, SpendIntent, Assertion, authorize}
use o2ul_portal.Wallet.LightClient.{Memory, Header, u64_mod, fetch_range}
use o2ul_portal.Wallet.LightClient.Range.{Linked, answers, fetch_range_below_max}
use o2ul_portal.Wallet.Prover.{Bytes, Mode, Request, Client, generate_proof}

-- what follows a fetch of the headers
unfoldable pub authorize_and_prove :
    Guard
    → Client
    → SpendIntent
    → List Assertion
    → Mode
    → Request
    → Result (List Header)
    → Result Bytes
authorize_and_prove guard prover intent assertions mode request (err e) = err e
authorize_and_prove guard prover intent assertions mode request (ok headers) =
    authorize guard intent assertions >> generate_proof prover mode request

-- `none` if the fetch has not returned within the fuel
unfoldable pub verify_authorize_and_prove :
    (String → String)
    → Memory
    → (ℕ → Result Header)
    → Guard
    → Client
    → ℕ
    → ℕ
    → ℕ
    → SpendIntent
    → List Assertion
    → Mode
    → Request
    → Option (Result Bytes)
verify_authorize_and_prove sha256_hex memory rpc guard prover fuel start last intent assertions mode
      request =
    elim (fetch_range sha256_hex memory rpc fuel start last) [
      | none ↦ none
      | some fetched ↦
          some (authorize_and_prove guard prover intent assertions mode request fetched)
    ]

authorize_and_prove_iff :
    (guard : Guard) (prover : Client) (intent : SpendIntent) (assertions : List Assertion)
    (mode : Mode) (request : Request) (fetched : Result (List Header)) (proof : Bytes)
    → (authorize_and_prove guard prover intent assertions mode request fetched ≡ ok proof) ↔ (
        ((headers : List Header) × (fetched ≡ ok headers))
        × (authorize guard intent assertions ≡ ok tt)
        × (generate_proof prover mode request ≡ ok proof))
unfolding authorize_and_prove
authorize_and_prove_iff guard prover intent assertions mode request (err e) proof =
    (λ h. cc h, λ ((headers, h), _, _). cc h)
authorize_and_prove_iff guard prover intent assertions mode request (ok headers) proof = (
  λ h.
      let (approved, made) =
        (>>-eq-ok (authorize guard intent assertions) (generate_proof prover mode request) proof).0
          h in
      ((headers, refl), approved, made),
  λ (found, approved, made).
      (>>-eq-ok (authorize guard intent assertions) (generate_proof prover mode request) proof).1
        (approved, made),
)

-- For a header range that ends below the largest uint64, VerifyAuthorizeAndProve comes to an end
-- after one round a header and one test more. It returns a proof exactly if there is room for the
-- headers of the range, the RPC's answers form a linked chain, the guard authorizes the spend, and
-- the prover makes that proof.
pub verify_authorize_and_prove_iff :
    (sha : String → String) (memory : Memory) (rpc : ℕ → Result Header) (guard : Guard)
    (prover : Client) (start count : ℕ) (intent : SpendIntent) (assertions : List Assertion)
    (mode : Mode) (request : Request) (proof : Bytes)
    → start + count + 1 < u64_mod
    → (r : Result Bytes) × (verify_authorize_and_prove sha memory rpc guard prover
          (count + 2)
          start
          (start + count)
          intent
          assertions
          mode
          request
        ≡ some r)
      × ((r ≡ ok proof) ↔ (
          (count + 1 ≤ memory.max_headers)
          × ((headers : List Header) × (answers rpc start (count + 1) ≡ ok headers)
              × Linked sha headers)
          × (authorize guard intent assertions ≡ ok tt)
          × (generate_proof prover mode request ≡ ok proof)))
unfolding verify_authorize_and_prove
verify_authorize_and_prove_iff sha memory rpc guard prover start count intent assertions mode
      request proof small =
    let (fetched, returned, exact) = fetch_range_below_max sha memory rpc start count small in
    let step = authorize_and_prove_iff guard prover intent assertions mode request fetched proof in
    (
      authorize_and_prove guard prover intent assertions mode request fetched,
      rw (returned, verify_authorize_and_prove) refl,
      (
        λ h.
            let ((headers, e), approved, made) = step.0 h in
            let (room, answered, linked) = (exact headers).0 e in
            (room, (headers, answered, linked), approved, made),
        λ (room, (headers, answered, linked), approved, made).
            step.1 ((headers, (exact headers).1 (room, answered, linked)), approved, made),
      ),
    )
