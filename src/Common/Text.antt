-- ===== src/Common/Text.antt =====
-- Go's `strings` functions over code points: TrimSpace, ToLower, HasPrefix, TrimPrefix.
use Prim.Native.Nat.{ℕ, zero, suc, ◌/◌, ◌%◌}
use Prim.Native.Char.{Char, code, nul}
use Prim.Native.String
use Prim.Native.String.{String, [], ◌∷◌}
use mathlib.Core.Path.{◌≡◌, refl, sym, ◌∙◌}
use mathlib.Core.Logic.{inl, inr}
use mathlib.Core.Option.{Option, none, some}
use mathlib.Core.Bool.{Bool, true, false, ◌&&◌, ◌||◌}
use text.Mathlib.Text
use text.Mathlib.TextLemmas.{nil-append, cons-append}
use package.o2ul_portal.Common.Tests.{leb, nat_eq, if◌then◌else◌, Bool-cases}

infix 50 ◌==◌
abbrev pub ◌==◌ : String → String → Bool
s == t = Text.◌==◌ s t

abbrev pub is_empty : String → Bool
is_empty [] = true
is_empty (c ∷ s) = false

-- unicode.IsSpace: the code points of the property White_Space.
unfoldable pub is_space_code : ℕ → Bool
is_space_code u =
    (leb 9 u && leb u 13)
    || nat_eq u 32
    || nat_eq u 0x85
    || nat_eq u 0xa0
    || nat_eq u 0x1680
    || (leb 0x2000 u && leb u 0x200a)
    || nat_eq u 0x2028
    || nat_eq u 0x2029
    || nat_eq u 0x202f
    || nat_eq u 0x205f
    || nat_eq u 0x3000

abbrev pub is_space : Char → Bool
is_space c = is_space_code (code c)

pub trim_left : String → String
trim_left [] = []
trim_left (c ∷ s) = let rest = trim_left s in if is_space c then rest else c ∷ s

pub trim_right : String → String
trim_right [] = []
trim_right (c ∷ s) = let rest = trim_right s in if is_space c && is_empty rest then [] else c ∷ rest

-- strings.TrimSpace
unfoldable pub trim_space : String → String
unfolding trim_left trim_right is_space_code
trim_space s = trim_right (trim_left s)

abbrev pub is_blank : String → Bool
is_blank s = is_empty (trim_space s)

-- `s + t`
abbrev pub concat : String → String → String
concat s t = String.◌++◌ s t

-- unicode.ToLower on ASCII: the entry of the second text that stands where `c` stands in the first.
pub lower_in : String → String → Char → Char
lower_in (u ∷ upper) (l ∷ lower) c =
    let rest = lower_in upper lower c in if nat_eq (code u) (code c) then l else rest
lower_in _ _ c = c

-- unicode.ToLower. The table of the code points from 128 on is the parameter `beyond_ascii`.
unfoldable pub lower_rune : (Char → Char) → Char → Char
unfolding lower_in
lower_rune beyond_ascii c =
    if leb 128 (code c)
    then beyond_ascii c
    else lower_in "ABCDEFGHIJKLMNOPQRSTUVWXYZ" "abcdefghijklmnopqrstuvwxyz" c

-- strings.ToLower
unfoldable pub to_lower : (Char → Char) → String → String
unfolding lower_rune
to_lower beyond_ascii [] = []
to_lower beyond_ascii (c ∷ s) = lower_rune beyond_ascii c ∷ to_lower beyond_ascii s

-- strings.TrimPrefix, and strings.HasPrefix as its success
unfoldable pub strip_prefix : String → String → Option String
strip_prefix [] s = some s
strip_prefix (p ∷ ps) [] = none
strip_prefix (p ∷ ps) (c ∷ s) =
    let rest = strip_prefix ps s in if nat_eq (code p) (code c) then rest else none

abbrev pub head_or : Char → String → Char
head_or c [] = c
head_or c (d ∷ s) = d

abbrev pub drop_chars : ℕ → String → String
drop_chars zero s = s
drop_chars (suc n) [] = []
drop_chars (suc n) (c ∷ s) = drop_chars n s

abbrev pub take_chars : ℕ → String → String
take_chars zero s = []
take_chars (suc n) [] = []
take_chars (suc n) (c ∷ s) = c ∷ take_chars n s

digits : ℕ → ℕ → String → String
digits zero n rest = rest
digits (suc fuel) n rest =
    let longer = head_or nul (drop_chars (n % 10) "0123456789") ∷ rest in
    let more = digits fuel (n / 10) longer in if nat_eq (n / 10) 0 then longer else more

-- `%d` of an unsigned 64-bit number, which has 20 digits at most
unfoldable pub decimal : ℕ → String
unfolding digits
decimal n = digits 20 n ""

prints : concat (decimal 0) (decimal 1805) ≡ "01805"
unfolding decimal
prints = refl

-- The first character, if there is one, is no space.
abbrev HeadOk : String → Type 0
HeadOk [] = Unit
HeadOk (c ∷ s) = is_space c ≡ false

trim_left-HeadOk : (s : String) → HeadOk (trim_left s)
unfolding trim_left
trim_left-HeadOk [] = tt
trim_left-HeadOk (c ∷ s) = elim (Bool-cases (is_space c)) [
  | inl e ↦ rw e (trim_left-HeadOk s)
  | inr e ↦ rw e e
]

trim_right-HeadOk : (s : String) → HeadOk s → HeadOk (trim_right s)
unfolding trim_right
trim_right-HeadOk [] h = tt
trim_right-HeadOk (c ∷ s) h = rw h h

trim_left_of_HeadOk : (s : String) → HeadOk s → trim_left s ≡ s
unfolding trim_left
trim_left_of_HeadOk [] h = refl
trim_left_of_HeadOk (c ∷ s) h = rw h

trim_right_idem : (s : String) → trim_right (trim_right s) ≡ trim_right s
unfolding trim_right
trim_right_idem [] = refl
trim_right_idem (c ∷ s) = elim (Bool-cases (is_space c && is_empty (trim_right s))) [
  | inl e ↦ rw e
  | inr e ↦ rw e (rw (trim_right_idem s) (rw e))
]

-- Trimming a second time changes nothing.
pub trim_space_idem : (s : String) → trim_space (trim_space s) ≡ trim_space s
unfolding trim_space
trim_space_idem s =
    rw (trim_left_of_HeadOk _ (trim_right-HeadOk _ (trim_left-HeadOk s)))
      (trim_right_idem (trim_left s))

-- No character of the text is a space.
abbrev pub NoSpaces : String → Type 0
NoSpaces [] = Unit
NoSpaces (c ∷ s) = (is_space c ≡ false) × NoSpaces s

trim_right_of_NoSpaces : (s : String) → NoSpaces s → trim_right s ≡ s
unfolding trim_right
trim_right_of_NoSpaces [] h = refl
trim_right_of_NoSpaces (c ∷ s) (p, h) = rw p (rw (trim_right_of_NoSpaces s h))

trim_left_of_NoSpaces : (s : String) → NoSpaces s → trim_left s ≡ s
unfolding trim_left
trim_left_of_NoSpaces [] h = refl
trim_left_of_NoSpaces (c ∷ s) (p, h) = rw p

pub trim_space_of_NoSpaces : (s : String) → NoSpaces s → trim_space s ≡ s
unfolding trim_space
trim_space_of_NoSpaces s h = rw (trim_left_of_NoSpaces s h) (trim_right_of_NoSpaces s h)

pub NoSpaces-concat : (s t : String) → NoSpaces s → NoSpaces t → NoSpaces (concat s t)
NoSpaces-concat [] t h k = rw nil-append k
NoSpaces-concat (c ∷ s) t (p, h) k = rw cons-append (p, NoSpaces-concat s t h k)

pub NoSpaces-take_chars : (n : ℕ) (s : String) → NoSpaces s → NoSpaces (take_chars n s)
NoSpaces-take_chars zero s h = tt
NoSpaces-take_chars (suc n) [] h = tt
NoSpaces-take_chars (suc n) (c ∷ s) (p, h) = (p, NoSpaces-take_chars n s h)

pub is_empty-eq : (s : String) → is_empty s ≡ true → s ≡ ""
is_empty-eq [] h = refl
is_empty-eq (c ∷ s) h = cc

pub concat_not_empty : (s t : String) → is_empty s ≡ false → concat s t ≡ "" → ⊥
concat_not_empty [] t h e = cc
concat_not_empty (c ∷ s) t h e = let k : (c ∷ concat s t) ≡ "" = sym (cons-append c s t) ∙ e in cc

trims : trim_space "  a b " ≡ "a b"
unfolding trim_space
trims = refl

lowers : to_lower (λ c. c) "MixED 7" ≡ "mixed 7"
unfolding to_lower
lowers = refl
