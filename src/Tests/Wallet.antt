-- ===== src/Tests/Wallet.antt =====
-- The guard, the light client and the prover at small inputs; `sha256_hex` is the identity.
use Prim.Native.Char.{Char, code}
use o2ul_portal.Common.{
  ◌^◌, ◌≤◌, ◌<◌, ◌≢◌, ap, ℕ, ◌+◌, ◌-◌, ◌≡◌, refl, ◌↔◌, ◌⊎◌, String, true, none, some, List, [], ◌∷◌,
  arith, length, All, Result, ok, concat,
}
use o2ul_portal.Common.Int.{pos, ◌≤ℤ◌}
use o2ul_portal.Wallet.Guard.{Factor, Assertion, SpendIntent, Guard, approval}
use o2ul_portal.Wallet.Guard.Factors.{IsDistinct, Accepts}
use o2ul_portal.Wallet.Guard.Approval.{approval_iff}
use o2ul_portal.Wallet.LightClient.{
  InclusionProof, Memory, Header, u64_mod, hash_pair, verify_from, verify_inclusion_proof,
  fetch_range,
}
use o2ul_portal.Wallet.LightClient.Binding.{Clash, texts, verify_inclusion_binds}
use o2ul_portal.Wallet.LightClient.Range.{
  Linked, answers, fetch_range_below_max, fetch_range_at_max,
}
use o2ul_portal.Wallet.LightClient.Merkle.{
  Tree, leaf, node, Position, here, right, proof_of, index_from, verify_inclusion_complete,
}
use o2ul_portal.Wallet.Prover.{Client}

abbrev pub two_factors : Guard
two_factors = record {
  threshold = pos 2;
  verifiers = ("device", λ i a. true) ∷ ("passkey", λ i a. true) ∷ [];
}

abbrev pub spend_seven : SpendIntent
spend_seven = record { wallet_id = "w"; amount = 7; asset_id = "o2ul" }

abbrev pub both : List Assertion
both =
    record { factor = "device"; payload = "d" } ∷ record { factor = "passkey"; payload = "p" } ∷ []

approval_iff_example : (approval two_factors spend_seven both ≡ ok tt) ↔ (
    (fs : List Factor) × IsDistinct fs
    × All (Accepts two_factors spend_seven both) fs
    × (two_factors.threshold ≤ℤ pos (length fs)))
approval_iff_example = approval_iff two_factors spend_seven both

abbrev pub plain : String → String
plain s = s

abbrev pub room : Memory
room = record { max_headers = 2 ^ 32; enough = omega arith }

abbrev header : ℕ → Header
header n = record { number = n; parent_hash = "h"; state_root = "r"; block_hash = "h" }

abbrev pub rpc : ℕ → Result Header
rpc n = ok (header n)

fetch_range_below_max_example :
    (r : Result (List Header)) × (fetch_range plain room rpc (2 + 2) 4 (4 + 2) ≡ some r)
    × ((hs : List Header)
        → (r ≡ ok hs)
          ↔ ((2 + 1 ≤ room.max_headers) × (answers rpc 4 (2 + 1) ≡ ok hs) × Linked plain hs))
fetch_range_below_max_example = fetch_range_below_max plain room rpc 4 2 (omega arith)

rpc_answers : (n : ℕ) → (h : Header) × (rpc n ≡ ok h)
rpc_answers n = (header n, refl)

fetch_range_at_max_example : fetch_range plain room rpc 9 (u64_mod - 3) (u64_mod - 1) ≡ none
fetch_range_at_max_example =
    fetch_range_at_max plain room rpc 9 (u64_mod - 3) rpc_answers (omega arith) (omega arith)

abbrev two_leaves : Tree
two_leaves = node (leaf "a") (leaf "b")

abbrev second : Position two_leaves
second = right here

a_full : ◌≡◌ {A = String} "a" "" → ⊥
a_full e = cc

b_full : ◌≡◌ {A = String} "b" "" → ⊥
b_full e = cc

second_small : index_from 0 second < u64_mod
second_small = omega arith

verify_inclusion_complete_example :
    verify_inclusion_proof plain (proof_of plain second second_small) ≡ true
verify_inclusion_complete_example =
    verify_inclusion_complete plain second second_small (a_full, b_full)

-- a hash that is the same for all texts
abbrev weak : String → String
weak s = "0f"

abbrev of_b : InclusionProof
of_b = proof_of weak {t = two_leaves} second second_small

abbrev of_c : InclusionProof
of_c = record of_b { leaf_hash = "c" }

not_bar : (c : Char) → code c < 124 → c ≢ "|"
not_bar c less e = let k : code c ≡ 124 = ap code e in omega (arith, k, less)

of_b_accepted : verify_inclusion_proof weak of_b ≡ true
unfolding verify_inclusion_proof verify_from hash_pair
of_b_accepted = refl

of_c_accepted : verify_inclusion_proof weak of_c ≡ true
unfolding verify_inclusion_proof verify_from hash_pair
of_c_accepted = refl

verify_inclusion_binds_example :
    (of_b.leaf_hash ≡ of_c.leaf_hash)
    ⊎ Clash weak
        (texts weak of_b.leaf_hash of_b.leaf_index of_b.sibling_hashes)
        (texts weak of_c.leaf_hash of_b.leaf_index of_c.sibling_hashes)
verify_inclusion_binds_example =
    verify_inclusion_binds weak (λ t. (not_bar "0" (omega arith), (not_bar "f" (omega arith), tt)))
      of_b of_c refl refl refl (not_bar "b" (omega arith), tt) (not_bar "c" (omega arith), tt)
      ((not_bar "a" (omega arith), tt), tt) ((not_bar "a" (omega arith), tt), tt) of_b_accepted
      of_c_accepted

abbrev pub prover : Client
prover = record {
  local = none;
  delegate = some (λ device circuit witness. ok (concat device witness));
  pairs = some (λ device. true);
}
