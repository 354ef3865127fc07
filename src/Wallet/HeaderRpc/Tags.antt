-- ===== src/Wallet/HeaderRpc/Tags.antt =====
-- The tag of a block number is read back, and the fixture answers by it.
use text.Mathlib.TextLemmas.{nil-append, cons-append}
use o2ul_portal.Common.{
  ℕ, ◌^◌, ◌<◌, String, Bool, true, false, ◌&&◌, ◌||◌, none, some, Option, [], ◌∷◌, ◌==◌, ◌≡◌, refl,
  sym, ap, ◌∙◌, arith, eq_iff, inl, inr, leb, nat_eq, nat_eq_iff, Bool-cases, concat, is_empty,
  trim_space, is_space_code, trim_space_of_NoSpaces, NoSpaces, NoSpaces-concat, to_lower,
  lower_rune, strip_prefix, lookup, Map, All, if◌then◌else◌, Result, ok,
}
use o2ul_portal.Common.Numbers.{format_hex}
use o2ul_portal.Common.Numbers.Hex.{
  format_hex-NoSpaces, format_hex-to_lower, format_hex-not_empty, parse_uint-format_hex,
}
use o2ul_portal.Wallet.HeaderRpc.{Wire, trim_prefix, parse_hex_uint64, tag, fixture_tags}

ok_ne : (k n : ℕ) → nat_eq k n ≡ false → ◌≡◌ {A = Result ℕ} (ok k) (ok n) → ⊥
ok_ne k n e h = ground arith

-- the numbers of the embedded headers
abbrev pub is_fixture : ℕ → Bool
is_fixture n = leb n 1 || (leb 9 n && leb n 21)

-- the entry of a number, by the numbers
find_number : ℕ → Map ℕ → Option ℕ
find_number n [] = none
find_number n ((t, k) ∷ m) = if nat_eq k n then some k else find_number n m

concat_tag : (s : String) → concat "0x" s ≡ String.◌∷◌ "0" (String.◌∷◌ "x" s)
concat_tag s =
    cons-append "0" "x" s
    ∙ ap (String.◌∷◌ "0") (cons-append "x" "" s ∙ ap (String.◌∷◌ "x") (nil-append s))

module _ (wire : Wire) where
  pub to_lower-tag : (n : ℕ) → to_lower wire.lower_beyond_ascii (tag n) ≡ tag n
  unfolding to_lower lower_rune
  to_lower-tag n =
      rw (concat_tag (format_hex n)) (rw (format_hex-to_lower wire.lower_beyond_ascii n) refl)

  tag-NoSpaces : (n : ℕ) → NoSpaces (tag n)
  unfolding is_space_code
  tag-NoSpaces n = NoSpaces-concat "0x" (format_hex n) (refl, (refl, tt)) (format_hex-NoSpaces n)

  trim_prefix-tag : (n : ℕ) → trim_prefix "0x" (tag n) ≡ format_hex n
  unfolding trim_prefix strip_prefix
  trim_prefix-tag n = rw (concat_tag (format_hex n)) refl

  clean-tag :
      (n : ℕ)
      → trim_prefix "0x" (to_lower wire.lower_beyond_ascii (trim_space (tag n))) ≡ format_hex n
  clean-tag n =
      ap (λ s. trim_prefix "0x" (to_lower wire.lower_beyond_ascii s))
        (trim_space_of_NoSpaces (tag n) (tag-NoSpaces n))
      ∙ (ap (trim_prefix "0x") (to_lower-tag n) ∙ trim_prefix-tag n)

  not_empty : (n : ℕ) → (format_hex n == "") ≡ false
  not_empty n = elim (Bool-cases (format_hex n == "")) [
    | inr e ↦ e
    | inl e ↦
        let none_left : is_empty (format_hex n) ≡ true = ap is_empty ((eq_iff _ _).0 e) in
        let some_left = format_hex-not_empty n in cc
  ]

  -- The number that a tag names is read back from it.
  pub parse_hex_uint64-tag : (n : ℕ) → n < 2 ^ 64 → parse_hex_uint64 wire (tag n) ≡ ok n
  unfolding parse_hex_uint64
  parse_hex_uint64-tag n h =
      rw (clean-tag n, parse_hex_uint64) (rw (not_empty n) (rw (parse_uint-format_hex n h) refl))

  -- Tags name numbers: two of them are the same text exactly if the numbers are the same.
  tag_eq : (k n : ℕ) → k < 2 ^ 64 → n < 2 ^ 64 → (tag k == tag n) ≡ nat_eq k n
  tag_eq k n hk hn = elim (Bool-cases (nat_eq k n)) [
    | inl e ↦ rw e ((eq_iff _ _).1 (ap (tag) ((nat_eq_iff k n).0 e)))
    | inr e ↦ elim (Bool-cases (tag k == tag n)) [
      | inr f ↦ rw e f
      | inl f ↦
          let same = ap (parse_hex_uint64 wire) ((eq_iff _ _).0 f) in
          let k_n : ok k ≡ ok n =
            sym (parse_hex_uint64-tag k hk) ∙ (same ∙ parse_hex_uint64-tag n hn) in
          absurd (ok_ne k n e k_n)
    ]
  ]

  -- an entry of the switch under the tag of its number
  abbrev IsTagged : String × ℕ → Type 0
  IsTagged (t, k) = (t ≡ tag k) × (k < 2 ^ 64)

  lookup-tag :
      (n : ℕ) (m : Map ℕ) → n < 2 ^ 64 → All IsTagged m → lookup (tag n) m ≡ find_number n m
  unfolding lookup find_number
  lookup-tag n [] h all = refl
  lookup-tag n ((t, k) ∷ m) h ((same, small), all) =
      let test : (t == tag n) ≡ nat_eq k n = rw same (tag_eq k n small h) in
      rw test (rw (lookup-tag n m h all) refl)

  fixture_tags-IsTagged : All IsTagged fixture_tags
  unfolding format_hex
  fixture_tags-IsTagged = (
    (refl, omega arith),
    (
      (refl, omega arith),
      (
        (refl, omega arith),
        (
          (refl, omega arith),
          (
            (refl, omega arith),
            (
              (refl, omega arith),
              (
                (refl, omega arith),
                (
                  (refl, omega arith),
                  (
                    (refl, omega arith),
                    (
                      (refl, omega arith),
                      (
                        (refl, omega arith),
                        (
                          (refl, omega arith),
                          ((refl, omega arith), ((refl, omega arith), ((refl, omega arith), tt))),
                        ),
                      ),
                    ),
                  ),
                ),
              ),
            ),
          ),
        ),
      ),
    ),
  )

  pub lookup-fixture_tags :
      (n : ℕ) → n < 2 ^ 64 → lookup (tag n) fixture_tags ≡ (if is_fixture n then some n else none)
  unfolding find_number
  lookup-fixture_tags n h = lookup-tag n fixture_tags h fixture_tags-IsTagged ∙ ground arith
