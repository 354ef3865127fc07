-- ===== src/Http/Wallet/Proving.antt =====
-- When a request for a spend proof is granted.
use o2ul_portal.Common.{
  ℕ, ◌+◌, ◌<◌, ◌≤◌, String, ◌≡◌, ◌∙◌, refl, ap, ◌↔◌, some, List, arith, eq_iff, ◌==◌, inl, inr,
  Bool-cases, Result, ok, err,
}
use o2ul_portal.Wallet.Guard.{Guard, SpendIntent, authorize}
use o2ul_portal.Wallet.LightClient.{Memory, Header, u64_mod}
use o2ul_portal.Wallet.LightClient.Range.{Linked, answers}
use o2ul_portal.Wallet.Prover.{Bytes, Client, Request, generate_proof}
use o2ul_portal.Wallet.Service.Prove.{verify_authorize_and_prove_iff}
use o2ul_portal.Http.{Response, json, refuse, TokenClaims}
use o2ul_portal.Http.Wallet.{
  SpendProveReq, WalletAnswer, proof, wallet_of, with_wallet, recovered_status, answered, prove_for,
  prove_spend,
}

-- the spend of a request by this player, and what it asks the prover
abbrev pub intent_of : String → SpendProveReq → SpendIntent
intent_of player req = record { wallet_id = player; amount = req.amount; asset_id = req.asset_id }

abbrev pub request_of : SpendProveReq → Request
request_of req = record {
  circuit_id = req.circuit_id;
  witness = req.witness;
  paired_device_id = req.paired_id;
}

granted : String → Bytes → Response WalletAnswer
granted player made = json 200 (record { wallet_id = player; payload = proof made })

answered-granted :
    (player : String) (r : Result Bytes) (made : Bytes)
    → (answered recovered_status player proof r ≡ granted player made) ↔ (r ≡ ok made)
unfolding granted
answered-granted player (err e) made = (λ h. cc h, λ h. cc h)
answered-granted player (ok x) made = (λ h. cc h, λ h. cc h)

with_wallet-own :
    {R T : Type 0} (stop : Response WalletAnswer → T) (name : R → String) (req : R)
    (act : String → R → T) (caller : TokenClaims)
    → wallet_of caller (name req) ≡ caller.player_id
    → with_wallet stop name (ok req) act (some caller) ≡ act caller.player_id req
unfolding with_wallet
with_wallet-own stop name req act caller mine =
    rw ((eq_iff (wallet_of caller (name req)) caller.player_id).1 mine, with_wallet)
      (ap (λ w. act w req) mine)

-- For a header range that ends below the largest uint64, the request of a player for a spend proof
-- is answered after one round a header and one more. The answer is 200 with a proof exactly if the
-- request names no other wallet than the player's, there is room for the headers of the range, the
-- RPC's answers form a linked chain, the guard authorizes the amount and asset for the player's
-- wallet with the assertions of the request, and the prover makes that proof.
pub prove_spend_iff :
    (sha : String → String) (memory : Memory) (rpc : ℕ → Result Header) (guard : Guard)
    (prover : Client) (count : ℕ) (req : SpendProveReq) (caller : TokenClaims) (made : Bytes)
    → req.header_start + count + 1 < u64_mod
    → req.header_end ≡ req.header_start + count
    → (answer : Response WalletAnswer) × (prove_spend sha memory rpc guard prover
          (count + 2)
          (ok req)
          (some caller)
        ≡ some answer)
      × ((answer ≡ json 200 (record { wallet_id = caller.player_id; payload = proof made })) ↔ (
          (wallet_of caller req.wallet_id ≡ caller.player_id)
          × (count + 1 ≤ memory.max_headers)
          × ((headers : List Header) × (answers rpc req.header_start (count + 1) ≡ ok headers)
              × Linked sha headers)
          × (authorize guard (intent_of caller.player_id req) req.assertions ≡ ok tt)
          × (generate_proof prover req.mode (request_of req) ≡ ok made)))
unfolding prove_spend with_wallet granted
prove_spend_iff sha memory rpc guard prover count req caller made small range =
    elim (Bool-cases (wallet_of caller req.wallet_id == caller.player_id)) [
      | inr other ↦ (
        refuse 403 "forbidden",
        rw (other, with_wallet) refl,
        (
          λ h. cc h,
          λ (same, room, chained, approved, proved).
              ground (arith, eq_iff (wallet_of caller req.wallet_id) caller.player_id),
        ),
      )
      | inl same ↦
          let mine = (eq_iff (wallet_of caller req.wallet_id) caller.player_id).0 same in
          let (r, returned, exact) =
            verify_authorize_and_prove_iff sha memory rpc guard prover req.header_start count
              (intent_of caller.player_id req) req.assertions req.mode (request_of req) made
              small in
          (
            answered recovered_status caller.player_id proof r,
            with_wallet-own some (λ q. q.wallet_id) req
                  (prove_for sha memory rpc guard prover (count + 2)) caller mine
                ∙ rw (range, prove_for) (rw (returned, prove_for) refl),
            (
              λ h.
                  let (room, chained, approved, proved) =
                    exact.0 ((answered-granted caller.player_id r made).0 h) in
                  (mine, room, chained, approved, proved),
              λ (_, room, chained, approved, proved).
                  (answered-granted caller.player_id r made).1
                    (exact.1 (room, chained, approved, proved)),
            ),
          )
    ]
