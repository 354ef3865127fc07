-- ===== src/Wallet/LightClient.antt =====
-- Header ranges and inclusion proofs (pkg/lightclient/client.go). The RPC is a parameter, and so
-- is `sha256_hex`, which stands for hex.EncodeToString of sha256.Sum256.
pub mod Range
pub mod Merkle
pub mod Binding
use o2ul_portal.Common.{
  ℕ, zero, suc, ◌+◌, ◌-◌, ◌≤◌, ◌/◌, ◌%◌, ◌^◌, ◌<◌, String, Bool, true, false, Option, none, some,
  List, [], ◌∷◌, ◌++◌, ◌==◌, nat_eq, ltb, not, ◌||◌, concat, decimal, if◌then◌else◌, Result, ok,
  err, Error, message, header_chain_broken, panicked, ◌>>=◌, ◌>>◌, fail_if,
}

-- The modulus of uint64.
abbrev pub u64_mod : ℕ
u64_mod = 2 ^ 64

-- The most headers for which the runtime allows `make([]Header, 0, n)`: beyond, it panics with
-- "makeslice: cap out of range". On a 64-bit platform these are at least 2 ^ 32. That the machine has
-- the memory for what the runtime allows is supposed.
pub record Memory : Type 0 where
  pub max_headers : ℕ
  pub enough : 2 ^ 32 ≤ max_headers

abbrev pub no_room : Error
no_room = panicked "makeslice: cap out of range"

pub record Header : Type 0 where
  pub number : ℕ
  pub parent_hash : String
  pub state_root : String
  pub block_hash : String

-- the loop of `FetchRange`: `none` while it has not returned, since the counter is a uint64 that
-- wraps around and `n <= end` need never fail.
unfoldable pub fetch_from :
    (ℕ → Result Header) → ℕ → ℕ → ℕ → List Header → Option (Result (List Header))
fetch_from rpc zero n last out = none
fetch_from rpc (suc fuel) n last out = if ltb last n then some (ok out) else elim (rpc n) [
  | err e ↦ some (err e)
  | ok h ↦ fetch_from rpc fuel ((n + 1) % u64_mod) last (out ++ h ∷ [])
]

-- The index of the leaf is a uint64.
pub record InclusionProof : Type 0 where
  pub leaf_hash : String
  pub sibling_hashes : List String
  pub leaf_index : ℕ
  pub leaf_index_bound : leaf_index < u64_mod
  pub root_hash : String

module _ (sha256_hex : String → String) where
  unfoldable pub hash_header : Header → String
  hash_header h =
      if not (h.block_hash == "")
      then h.block_hash
      else concat "0x" (
          sha256_hex (
            concat (decimal h.number)
              (concat "|" (concat h.parent_hash (concat "|" h.state_root)))))

  -- the loop of `VerifyHeaderChain` from the second header on
  unfoldable pub verify_after : Header → List Header → Result (Unit {0})
  verify_after prev [] = ok tt
  verify_after prev (curr ∷ headers) = do
    fail_if (not (nat_eq curr.number ((prev.number + 1) % u64_mod))) header_chain_broken
    fail_if (not (curr.parent_hash == hash_header prev)) header_chain_broken
    verify_after curr headers

  unfoldable pub verify_header_chain : List Header → Result (Unit {0})
  verify_header_chain [] = ok tt
  verify_header_chain (h ∷ headers) = verify_after h headers

  abbrev verified : List Header → Result (List Header)
  verified out = do verify_header_chain out; ok out

  -- The capacity that is asked for is a uint64.
  unfoldable pub fetch_range :
      Memory → (ℕ → Result Header) → ℕ → ℕ → ℕ → Option (Result (List Header))
  fetch_range memory rpc fuel start last =
      if ltb last start
      then some (err (message "invalid range"))
      else if ltb memory.max_headers ((last - start + 1) % u64_mod)
      then some (err no_room)
      else elim (fetch_from rpc fuel start last []) [
        | none ↦ none
        | some fetched ↦ some (fetched >>= verified)
      ]

  unfoldable pub hash_pair : String → String → String
  hash_pair left right = concat "0x" (sha256_hex (concat left (concat "|" right)))

  -- the loop of `VerifyInclusionProof`, with its last comparison
  unfoldable pub verify_from : String → ℕ → String → List String → Bool
  verify_from current idx root [] = current == root
  verify_from current idx root (sibling ∷ siblings) =
      let rest =
        verify_from
          (if nat_eq (idx % 2) 0 then hash_pair current sibling else hash_pair sibling current)
          (idx / 2) root siblings in
      if sibling == "" then false else rest

  unfoldable pub verify_inclusion_proof : InclusionProof → Bool
  verify_inclusion_proof proof =
      if proof.leaf_hash == "" || proof.root_hash == ""
      then false
      else verify_from proof.leaf_hash proof.leaf_index proof.root_hash proof.sibling_hashes
