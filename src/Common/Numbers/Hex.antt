-- ===== src/Common/Numbers/Hex.antt =====
-- Hexadecimal numbers are read back as they were printed.
use Prim.Native.Nat.{ℕ, zero, suc, ◌+◌, ◌*◌, ◌/◌, ◌%◌, ◌^◌, ◌<◌}
use Prim.Native.Char.{Char, code}
use Prim.Native.String.{String, ◌∷◌}
use mathlib.Core.Path.{◌≡◌, refl, ◌∙◌, ap, subst}
use mathlib.Core.Logic.{inl, inr}
use mathlib.Core.Option.{some}
use mathlib.Core.Bool.{true, false}
use native.Mathlib.Omega.{arith}
use native.Mathlib.Decide.{ℕ_discrete}
use package.o2ul_portal.Common.Tests.{ltb, nat_eq, nat_eq_iff, Bool-cases}
use package.o2ul_portal.Common.Text.{
  is_empty, is_space, is_space_code, NoSpaces, to_lower, lower_rune,
}
use package.o2ul_portal.Common.Numbers.{
  digit_value, parse_digits, parse_uint, hex_digit, format_digits, format_hex,
}

-- a property of all numbers below `n`
abbrev AllBelow : ℕ → (ℕ → Type 0) → Type 0
AllBelow zero P = Unit
AllBelow (suc n) P = P n × AllBelow n P

below : (P : ℕ → Type 0) (n : ℕ) → AllBelow n P → (d : ℕ) → d < n → P d
below P zero h d lt = absurd (omega arith)
below P (suc n) (p, h) d lt = elim (ℕ_discrete n d) [
  | yes e ↦ subst P e p
  | no ne ↦ below P n h d (omega arith)
]

-- a digit is read back, is no space, and is in lower case
abbrev IsDigit : (Char → Char) → ℕ → Type 0
IsDigit beyond_ascii d =
    (digit_value (code (hex_digit d)) ≡ some d)
    × (is_space (hex_digit d) ≡ false)
    × (lower_rune beyond_ascii (hex_digit d) ≡ hex_digit d)

hex-IsDigit : (beyond_ascii : Char → Char) (d : ℕ) → d < 16 → IsDigit beyond_ascii d
unfolding digit_value hex_digit is_space_code lower_rune
hex-IsDigit beyond_ascii = below (IsDigit beyond_ascii) 16 (
  (refl, refl, refl),
  (
    (refl, refl, refl),
    (
      (refl, refl, refl),
      (
        (refl, refl, refl),
        (
          (refl, refl, refl),
          (
            (refl, refl, refl),
            (
              (refl, refl, refl),
              (
                (refl, refl, refl),
                (
                  (refl, refl, refl),
                  (
                    (refl, refl, refl),
                    (
                      (refl, refl, refl),
                      (
                        (refl, refl, refl),
                        (
                          (refl, refl, refl),
                          ((refl, refl, refl), ((refl, refl, refl), ((refl, refl, refl), tt))),
                        ),
                      ),
                    ),
                  ),
                ),
              ),
            ),
          ),
        ),
      ),
    ),
  ),
)

-- A number that `fuel` hexadecimal digits can hold.
abbrev Fits : ℕ → ℕ → Type 0
Fits zero n = n ≡ 0
Fits (suc fuel) n = Fits fuel (n / 16)

same : Char → Char
same c = c

parse_step :
    (n : ℕ) (rest : String)
    → parse_digits 16 (hex_digit (n % 16) ∷ rest) (n / 16) ≡ parse_digits 16 rest n
unfolding parse_digits
parse_step n rest =
    let small : n % 16 < 16 = omega arith in
    let test : ltb (n % 16) 16 ≡ true = ground arith in
    let whole : n / 16 * 16 + n % 16 ≡ n = omega arith in
    rw ((hex-IsDigit same (n % 16) small).0, parse_digits)
      (rw test (ap (parse_digits 16 rest) whole))

parse-format_digits :
    (fuel n : ℕ) (rest : String)
    → Fits fuel n
    → parse_digits 16 (format_digits fuel n rest) 0 ≡ parse_digits 16 rest n
unfolding format_digits
parse-format_digits zero n rest h = rw h refl
parse-format_digits (suc fuel) n rest h = elim (Bool-cases (nat_eq (n / 16) 0)) [
  | inl e ↦ rw e (
      subst (λ m. parse_digits 16 (hex_digit (n % 16) ∷ rest) m ≡ parse_digits 16 rest n)
        ((nat_eq_iff (n / 16) 0).0 e) (parse_step n rest))
  | inr e ↦
      rw e (parse-format_digits fuel (n / 16) (hex_digit (n % 16) ∷ rest) h ∙ parse_step n rest)
]

u64-Fits : (n : ℕ) → n < 2 ^ 64 → Fits 16 n
u64-Fits n h = omega arith

-- What holds of every digit, and of the text behind, holds of the digits that are printed.
format_digits-NoSpaces :
    (fuel n : ℕ) (rest : String) → NoSpaces rest → NoSpaces (format_digits fuel n rest)
unfolding format_digits
format_digits-NoSpaces zero n rest h = h
format_digits-NoSpaces (suc fuel) n rest h =
    let digit = (hex-IsDigit same (n % 16) (omega arith)).1 in
    elim (Bool-cases (nat_eq (n / 16) 0)) [
      | inl e ↦ rw e (digit, h)
      | inr e ↦ rw e (format_digits-NoSpaces fuel (n / 16) (hex_digit (n % 16) ∷ rest) (digit, h))
    ]

format_digits-to_lower :
    (beyond_ascii : Char → Char) (fuel n : ℕ) (rest : String)
    → to_lower beyond_ascii rest ≡ rest
    → to_lower beyond_ascii (format_digits fuel n rest) ≡ format_digits fuel n rest
unfolding format_digits to_lower
format_digits-to_lower beyond_ascii zero n rest h = h
format_digits-to_lower beyond_ascii (suc fuel) n rest h =
    let digit = (hex-IsDigit beyond_ascii (n % 16) (omega arith)).2 in
    elim (Bool-cases (nat_eq (n / 16) 0)) [
      | inl e ↦ rw e (rw digit (rw h refl))
      | inr e ↦ rw e (
          format_digits-to_lower beyond_ascii fuel (n / 16) (hex_digit (n % 16) ∷ rest)
            (rw digit (rw h refl)))
    ]

format_digits-not_empty :
    (fuel n : ℕ) (c : Char) (rest : String) → is_empty (format_digits fuel n (c ∷ rest)) ≡ false
unfolding format_digits
format_digits-not_empty zero n c rest = refl
format_digits-not_empty (suc fuel) n c rest = elim (Bool-cases (nat_eq (n / 16) 0)) [
  | inl e ↦ rw e refl
  | inr e ↦ rw e (format_digits-not_empty fuel (n / 16) (hex_digit (n % 16)) (c ∷ rest))
]

pub format_hex-NoSpaces : (n : ℕ) → NoSpaces (format_hex n)
unfolding format_hex
format_hex-NoSpaces n = format_digits-NoSpaces 16 n "" tt

pub format_hex-to_lower :
    (beyond_ascii : Char → Char) (n : ℕ) → to_lower beyond_ascii (format_hex n) ≡ format_hex n
unfolding format_hex
format_hex-to_lower beyond_ascii n =
    format_digits-to_lower beyond_ascii 16 n "" (unfold to_lower in refl)

pub format_hex-not_empty : (n : ℕ) → is_empty (format_hex n) ≡ false
unfolding format_hex format_digits
format_hex-not_empty n = elim (Bool-cases (nat_eq (n / 16) 0)) [
  | inl e ↦ rw e refl
  | inr e ↦ rw e (format_digits-not_empty 15 (n / 16) (hex_digit (n % 16)) "")
]

-- strconv.ParseUint reads what strconv.FormatUint printed.
pub parse_uint-format_hex : (n : ℕ) → n < 2 ^ 64 → parse_uint 16 (format_hex n) ≡ some n
unfolding parse_uint
parse_uint-format_hex n h =
    let parsed : parse_digits 16 (format_hex n) 0 ≡ some n =
      unfold format_hex parse_digits in parse-format_digits 16 n "" (u64-Fits n h) in
    let test : ltb n (2 ^ 64) ≡ true = ground arith in
    rw (format_hex-not_empty n) (rw parsed (rw test refl))
