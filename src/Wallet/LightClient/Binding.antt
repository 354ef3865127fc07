-- ===== src/Wallet/LightClient/Binding.antt =====
-- Two inclusion proofs for one root.
use Prim.Native.Char.{Char, code}
use Prim.Native.String as S
use o2ul_portal.Common.{
  ℕ, ◌/◌, ◌%◌, ◌≡◌, refl, ◌≢◌, ◌⊎◌, String, true, List, [], ◌∷◌, arith, eq_iff, ◌==◌, nat_eq, inl,
  inr, Bool-cases, if◌then◌else◌, length, ◌∙◌, sym, ap, concat, drop_chars, head_or, All,
}
use text.Mathlib.TextLemmas.{nil-append, cons-append, append_cancel_left}
use mathlib.Core.Path.{subst₂}
use o2ul_portal.Wallet.LightClient.{InclusionProof, hash_pair, verify_from, verify_inclusion_proof}

-- No character is the separator of hash_pair.
abbrev pub Plain : String → Type 0
Plain S.[] = Unit
Plain (S.◌∷◌ c s) = (c ≢ "|") × Plain s

Plain-concat : (s t : String) → Plain s → Plain t → Plain (concat s t)
Plain-concat S.[] t h k = rw nil-append k
Plain-concat (S.◌∷◌ c s) t (p, h) k = rw cons-append (p, Plain-concat s t h k)

bar : (b : String) → concat "|" b ≡ S.◌∷◌ "|" b
bar b = cons-append "|" "" b ∙ ap (λ z. S.◌∷◌ "|" z) (nil-append b)

zero_is_none : ◌≢◌ {A = Char} "0" "|"
zero_is_none e = let k : ◌≡◌ {A = ℕ} 48 124 = ap code e in omega arith

x_is_none : ◌≢◌ {A = Char} "x" "|"
x_is_none e = let k : ◌≡◌ {A = ℕ} 120 124 = ap code e in omega arith

-- Between plain texts the separator is found again.
split_once :
    (a a' b b' : String)
    → Plain a
    → Plain a'
    → concat a (concat "|" b) ≡ concat a' (concat "|" b')
    → (a ≡ a') × (b ≡ b')
split_once S.[] S.[] b b' p p' e =
    (refl, append_cancel_left "|" b b' (append_cancel_left "" (concat "|" b) (concat "|" b') e))
split_once S.[] (S.◌∷◌ c a') b b' p (ne, p') e =
    let k = sym (bar b) ∙ sym (nil-append (concat "|" b)) ∙ e ∙ cons-append c a' (concat "|" b') in
    absurd (ne (sym (ap (head_or "|") k)))
split_once (S.◌∷◌ c a) S.[] b b' (ne, p) p' e =
    let k = sym (cons-append c a (concat "|" b)) ∙ e ∙ nil-append (concat "|" b') ∙ bar b' in
    absurd (ne (ap (head_or "|") k))
split_once (S.◌∷◌ c a) (S.◌∷◌ c' a') b b' (ne, p) (ne', p') e =
    let k = sym (cons-append c a (concat "|" b)) ∙ e ∙ cons-append c' a' (concat "|" b') in
    let first : c ≡ c' = ap (head_or "|") k in
    let (rest, same) = split_once a a' b b' p p' (ap (drop_chars 1) k) in
    (λ i. S.◌∷◌ (first i) (rest i), same)

-- The text that is hashed for a node, from a hash at this index and its sibling.
abbrev pub text_at : ℕ → String → String → String
text_at i current sibling =
    if nat_eq (i % 2) 0
    then concat current (concat "|" sibling)
    else concat sibling (concat "|" current)

text_at-inj :
    (i : ℕ) (c s c' s' : String)
    → Plain c
    → Plain c'
    → Plain s
    → Plain s'
    → text_at i c s ≡ text_at i c' s'
    → c ≡ c'
text_at-inj i c s c' s' pc pc' ps ps' e = elim (Bool-cases (nat_eq (i % 2) 0)) [
  | inl even ↦ (split_once c c' s s' pc pc' (rw even at e)).0
  | inr odd ↦ (split_once s s' c c' ps ps' (rw odd at e)).1
]

module _ (sha : String → String) where
  -- The texts that are hashed on the way from a leaf to the root, given its index and siblings.
  pub texts : String → ℕ → List String → List String
  texts current i [] = []
  texts current i (sibling ∷ rest) =
      text_at i current sibling ∷ texts (concat "0x" (sha (text_at i current sibling))) (i / 2) rest

  -- At one place the two sequences have different texts with the same hash.
  abbrev pub Clash : List String → List String → Type 0
  Clash [] ys = ⊥
  Clash (x ∷ xs) [] = ⊥
  Clash (x ∷ xs) (y ∷ ys) = ((x ≢ y) × (sha x ≡ sha y)) ⊎ Clash xs ys

  verify_from-step :
      (c : String) (i : ℕ) (goal s : String) (ss : List String)
      → verify_from sha c i goal (s ∷ ss) ≡ true
      → verify_from sha (concat "0x" (sha (text_at i c s))) (i / 2) goal ss ≡ true
  unfolding verify_from hash_pair
  verify_from-step c i goal s ss h = elim (Bool-cases (nat_eq (i % 2) 0)) [
    | inl even ↦ ground arith
    | inr odd ↦ ground arith
  ]

  module _ (plain : (t : String) → Plain (sha t)) where
    zero-Plain : (t : String) → Plain (concat "0x" (sha t))
    zero-Plain t = Plain-concat "0x" (sha t) (zero_is_none, (x_is_none, tt)) (plain t)

    binds_from :
        (c c' : String) (i : ℕ) (goal : String) (ss ss' : List String)
        → length ss ≡ length ss'
        → Plain c
        → Plain c'
        → All Plain ss
        → All Plain ss'
        → verify_from sha c i goal ss ≡ true
        → verify_from sha c' i goal ss' ≡ true
        → (c ≡ c') ⊎ Clash (texts c i ss) (texts c' i ss')
    unfolding verify_from texts
    binds_from c c' i goal [] [] e pc pc' ps ps' h k =
        inl ((eq_iff c goal).0 h ∙ sym ((eq_iff c' goal).0 k))
    binds_from c c' i goal [] (s' ∷ ss') e pc pc' ps ps' h k = absurd (omega arith)
    binds_from c c' i goal (s ∷ ss) [] e pc pc' ps ps' h k = absurd (omega arith)
    binds_from c c' i goal (s ∷ ss) (s' ∷ ss') e pc pc' (p, ps) (p', ps') h k =
        elim (Bool-cases (c == c')) [
          | inl equal ↦ inl ((eq_iff c c').0 equal)
          | inr other ↦
              let x = text_at i c s in
              let y = text_at i c' s' in
              elim (binds_from (concat "0x" (sha x)) (concat "0x" (sha y)) (i / 2) goal ss ss'
                (omega arith) (zero-Plain x) (zero-Plain y) ps ps'
                (verify_from-step c i goal s ss h) (verify_from-step c' i goal s' ss' k)) [
                  | inl same ↦ inr (
                      inl (
                        λ eq.
                            let hit = text_at-inj i c s c' s' pc pc' p p' eq in
                            ground (arith, eq_iff c c', hit),
                        append_cancel_left "0x" (sha x) (sha y) same,
                      ))
                  | inr found ↦ inr (inr found)
                ]
        ]

    accepted_from :
        (proof : InclusionProof)
        → verify_inclusion_proof sha proof ≡ true
        → verify_from sha proof.leaf_hash proof.leaf_index proof.root_hash proof.sibling_hashes
          ≡ true
    unfolding verify_inclusion_proof
    accepted_from proof h = ground arith

    -- Two accepted proofs for one root, one index and one number of siblings, whose leaves and
    -- siblings have no character `|`, which no hash has either, prove the same leaf, unless at one
    -- level on their ways to the root they hash two different texts that have the same sha256.
    pub verify_inclusion_binds :
        (p q : InclusionProof)
        → p.root_hash ≡ q.root_hash
        → p.leaf_index ≡ q.leaf_index
        → length p.sibling_hashes ≡ length q.sibling_hashes
        → Plain p.leaf_hash
        → Plain q.leaf_hash
        → All Plain p.sibling_hashes
        → All Plain q.sibling_hashes
        → verify_inclusion_proof sha p ≡ true
        → verify_inclusion_proof sha q ≡ true
        → (p.leaf_hash ≡ q.leaf_hash)
          ⊎ Clash
              (texts p.leaf_hash p.leaf_index p.sibling_hashes)
              (texts q.leaf_hash p.leaf_index q.sibling_hashes)
    verify_inclusion_binds p q same_root same_index same_length pl ql ps qs h k =
        binds_from p.leaf_hash q.leaf_hash p.leaf_index p.root_hash p.sibling_hashes
          q.sibling_hashes same_length pl ql ps qs (accepted_from p h)
          (subst₂ (λ r i. verify_from sha q.leaf_hash i r q.sibling_hashes ≡ true) (sym same_root)
            (sym same_index) (accepted_from q k))

  -- The separator does not keep the parts of a text apart: for any sha256, index 0 and one sibling,
  -- the leaves "a" with the sibling "b|c" and "a|b" with the sibling "c" have the same root.
  separator_shifts : hash_pair sha "a" "b|c" ≡ hash_pair sha "a|b" "c"
  unfolding hash_pair
  separator_shifts = refl
