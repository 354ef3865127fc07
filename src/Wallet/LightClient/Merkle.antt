-- ===== src/Wallet/LightClient/Merkle.antt =====
-- Inclusion proofs against hash trees of any shape.
use o2ul_portal.Common.{
  ℕ, ◌+◌, ◌*◌, ◌/◌, ◌%◌, ◌<◌, ◌≡◌, refl, ◌≢◌, String, true, List, [], ◌∷◌, ◌++◌, arith, eq_iff, ◌∙◌,
}
use mathlib.Core.List.{append_assoc, append-nil}
use text.Mathlib.TextLemmas.{append-eq-nil_iff}
use o2ul_portal.Wallet.LightClient.{
  u64_mod, InclusionProof, hash_pair, verify_from, verify_inclusion_proof,
}

-- A tree of hashes.
pub data Tree : Type 0 where
  leaf : String → Tree
  node : Tree → Tree → Tree

-- The way from the root to a leaf.
pub data Position : Tree → Type 0 where
  here : {h : String} → Position (leaf h)
  left : {l r : Tree} → Position l → Position (node l r)
  right : {l r : Tree} → Position r → Position (node l r)

abbrev pub leaf_at : {t : Tree} → Position t → String
leaf_at (here {h}) = h
leaf_at (left p) = leaf_at p
leaf_at (right p) = leaf_at p

-- The index of a leaf: the turns from the root down are its binary digits, `m` stands before them.
abbrev pub index_from : {t : Tree} → ℕ → Position t → ℕ
index_from m here = m
index_from m (left p) = index_from (2 * m) p
index_from m (right p) = index_from (2 * m + 1) p

-- No leaf is the empty text.
abbrev pub HasHashes : Tree → Type 0
HasHashes (leaf h) = h ≢ ""
HasHashes (node l r) = HasHashes l × HasHashes r

module _ (sha : String → String) where
  abbrev pub root : Tree → String
  root (leaf h) = h
  root (node l r) = hash_pair sha (root l) (root r)

  -- The siblings on the way, from the leaf up.
  abbrev pub siblings : {t : Tree} → Position t → List String
  siblings here = []
  siblings (left {l} {r} p) = siblings p ++ root r ∷ []
  siblings (right {l} {r} p) = siblings p ++ root l ∷ []

  root-ne : (t : Tree) → HasHashes t → root t ≢ ""
  unfolding hash_pair
  root-ne (leaf h) k e = k e
  root-ne (node l r) k e =
      let prefix : ◌≡◌ {A = String} "0x" "" = (append-eq-nil_iff.0 e).0 in
      ground (arith, eq_iff "0x" "")

  climb_left :
      (current sibling goal : String) (m : ℕ) (rest : List String)
      → sibling ≢ ""
      → verify_from sha current (2 * m) goal (sibling ∷ rest)
        ≡ verify_from sha (hash_pair sha current sibling) m goal rest
  unfolding verify_from
  climb_left current sibling goal m rest ne =
      let half : 2 * m / 2 ≡ m = omega arith in
      let even : 2 * m % 2 ≡ 0 = omega arith in ground (arith, half, even, eq_iff sibling "")

  climb_right :
      (current sibling goal : String) (m : ℕ) (rest : List String)
      → sibling ≢ ""
      → verify_from sha current (2 * m + 1) goal (sibling ∷ rest)
        ≡ verify_from sha (hash_pair sha sibling current) m goal rest
  unfolding verify_from
  climb_right current sibling goal m rest ne =
      let half : (2 * m + 1) / 2 ≡ m = omega arith in
      let odd : (2 * m + 1) % 2 ≡ 1 = omega arith in ground (arith, half, odd, eq_iff sibling "")

  -- The loop climbs from a leaf to the root of its tree, and then reads the digits before.
  verify_from-climbs :
      {t : Tree} (p : Position t) (m : ℕ) (goal : String) (rest : List String)
      → HasHashes t
      → verify_from sha (leaf_at p) (index_from m p) goal (siblings p ++ rest)
        ≡ verify_from sha (root t) m goal rest
  verify_from-climbs here m goal rest k = refl
  verify_from-climbs (left {l} {r} p) m goal rest k = rw append_assoc (
      verify_from-climbs p (2 * m) goal (root r ∷ rest) k.0
      ∙ climb_left (root l) (root r) goal m rest (root-ne r k.1))
  verify_from-climbs (right {l} {r} p) m goal rest k = rw append_assoc (
      verify_from-climbs p (2 * m + 1) goal (root l ∷ rest) k.1
      ∙ climb_right (root r) (root l) goal m rest (root-ne l k.0))

  -- The proof that belongs to a leaf of a tree, if its index is a uint64.
  abbrev pub proof_of : {t : Tree} (p : Position t) → index_from 0 p < u64_mod → InclusionProof
  proof_of {t} p small = record {
    leaf_hash = leaf_at p;
    sibling_hashes = siblings p;
    leaf_index = index_from 0 p;
    leaf_index_bound = small;
    root_hash = root t;
  }

  leaf_at-ne : {t : Tree} (p : Position t) → HasHashes t → leaf_at p ≢ ""
  leaf_at-ne here k e = k e
  leaf_at-ne (left p) k e = leaf_at-ne p k.0 e
  leaf_at-ne (right p) k e = leaf_at-ne p k.1 e

  -- Every leaf of a hash tree, of any shape, has an accepted proof, if its index is a uint64.
  pub verify_inclusion_complete :
      {t : Tree} (p : Position t) (small : index_from 0 p < u64_mod)
      → HasHashes t
      → verify_inclusion_proof sha (proof_of p small) ≡ true
  unfolding verify_inclusion_proof verify_from
  verify_inclusion_complete {t} p small k =
      let whole = verify_from-climbs p 0 (root t) [] k in
      ground (
        arith,
        append-nil (siblings p),
        whole,
        eq_iff (leaf_at p) "",
        leaf_at-ne p k,
        eq_iff (root t) "",
        root-ne t k,
        eq_iff (root t) (root t),
      )
