-- ===== src/Common/Numbers.antt =====
-- Go's strconv over code points: ParseUint, FormatUint and Atoi.
pub mod Hex
use Prim.Native.Nat.{ℕ, zero, suc, ◌+◌, ◌-◌, ◌*◌, ◌/◌, ◌%◌, ◌^◌}
use Prim.Native.Char.{Char, code, nul}
use Prim.Native.String
use Prim.Native.String.{String, [], ◌∷◌}
use mathlib.Core.Path.{◌≡◌, refl, sym, ◌∙◌, ap}
use mathlib.Core.Logic.{inl, inr}
use mathlib.Core.Option.{Option, none, some}
use mathlib.Core.Bool.{Bool, true, false, ◌&&◌, ◌||◌}
use native.Mathlib.Omega.{arith}
use package.o2ul_portal.Common.Tests.{leb, ltb, nat_eq, if◌then◌else◌, Bool-cases}
use package.o2ul_portal.Common.Text.{is_empty, head_or, drop_chars}
use package.o2ul_portal.Common.Int.{ℤ, pos, negsuc}

-- the value of a digit or of a letter, of either case
unfoldable pub digit_value : ℕ → Option ℕ
digit_value c =
    if leb b'0' c && leb c b'9'
    then some (c - b'0')
    else if leb b'a' c && leb c b'z'
    then some (c - b'a' + 10)
    else if leb b'A' c && leb c b'Z'
    then some (c - b'A' + 10)
    else none

-- the number that the digits of a text and those before it stand for
unfoldable pub parse_digits : ℕ → String → ℕ → Option ℕ
parse_digits base [] n = some n
parse_digits base (c ∷ s) n = elim (digit_value (code c)) [
  | none ↦ none
  | some d ↦ if ltb d base then parse_digits base s (n * base + d) else none
]

-- strconv.ParseUint(s, base, 64) at a base of 2 to 36; `none` for its errors
unfoldable pub parse_uint : ℕ → String → Option ℕ
parse_uint base s = if is_empty s then none else elim (parse_digits base s 0) [
  | none ↦ none
  | some n ↦ if ltb n (2 ^ 64) then some n else none
]

abbrev signed : Bool → Option ℕ → Option ℤ
signed negative none = none
signed true (some zero) = some (pos 0)
signed true (some (suc n)) = if leb (suc n) (2 ^ 63) then some (negsuc n) else none
signed false (some n) = if ltb n (2 ^ 63) then some (pos n) else none

magnitude : Bool → String → Option ℤ
magnitude negative s = if is_empty s then none else signed negative (parse_digits 10 s 0)

-- strconv.Atoi with an int of 64 bits
unfoldable pub atoi : String → Option ℤ
unfolding magnitude
atoi [] = none
atoi (c ∷ s) =
    if nat_eq (code c) b'-'
    then magnitude true s
    else if nat_eq (code c) b'+'
    then magnitude false s
    else magnitude false (c ∷ s)

reads : atoi "-120" ≡ some (negsuc 119)
unfolding atoi parse_digits digit_value
reads = refl

refuses : atoi "9223372036854775808" ≡ none
unfolding atoi parse_digits digit_value
refuses = refl

-- a digit below 16, in lower case
unfoldable pub hex_digit : ℕ → Char
hex_digit d = head_or nul (drop_chars d "0123456789abcdef")

pub format_digits : ℕ → ℕ → String → String
format_digits zero n rest = rest
format_digits (suc fuel) n rest =
    let longer = hex_digit (n % 16) ∷ rest in
    let more = format_digits fuel (n / 16) longer in if nat_eq (n / 16) 0 then longer else more

-- strconv.FormatUint(n, 16); a uint64 has 16 digits at most
unfoldable pub format_hex : ℕ → String
unfolding format_digits hex_digit
format_hex n = format_digits 16 n ""
