-- ===== src/Wallet/Guard/Factors.antt =====
-- Distinct lists of factors, and the first assertion that names a factor.
use o2ul_portal.Common.{
  suc, ◌≤◌, ◌≡◌, refl, ◌≢◌, true, false, Option, none, some, List, [], ◌∷◌, arith, eq_iff, ◌==◌,
  inl, inr, Bool-cases, if◌then◌else◌, length, All, subst,
}
use o2ul_portal.Wallet.Guard.{Factor, Assertion, SpendIntent, Guard, contains, is_verified}

abbrev pub IsDistinct : List Factor → Type 0
IsDistinct [] = Unit
IsDistinct (f ∷ fs) = (contains f fs ≡ false) × IsDistinct fs

-- The assertion that decides about a factor: the first one that names it.
unfoldable pub first_with : Factor → List Assertion → Option Assertion
first_with f [] = none
first_with f (a ∷ given) = if a.factor == f then some a else first_with f given

-- The first assertion that names the factor is accepted by the factor's verifier.
pub record Accepts (g : Guard) (intent : SpendIntent) (given : List Assertion) (f : Factor)
    : Type 0 where
  pub assertion : Assertion
  pub first : first_with f given ≡ some assertion
  pub verified : is_verified g intent assertion ≡ true

unfoldable pub remove : Factor → List Factor → List Factor
remove f [] = []
remove f (g ∷ gs) = let rest = remove f gs in if g == f then rest else g ∷ rest

pub contains-cons_false :
    (f g : Factor) (gs : List Factor)
    → contains f (g ∷ gs) ≡ false
    → (g ≢ f) × (contains f gs ≡ false)
unfolding contains
contains-cons_false f g gs h = (λ e. ground (arith, eq_iff g f), ground arith)

pub remove_of_absent : (f : Factor) (gs : List Factor) → contains f gs ≡ false → remove f gs ≡ gs
unfolding contains remove
remove_of_absent f [] h = refl
remove_of_absent f (g ∷ gs) h = ground (arith, remove_of_absent f gs)

contains-remove :
    (f g : Factor) (gs : List Factor) → contains f gs ≡ false → contains f (remove g gs) ≡ false
unfolding contains remove
contains-remove f g [] h = refl
contains-remove f g (x ∷ gs) h = ground (arith, contains-remove f g gs)

pub remove-IsDistinct : (f : Factor) (gs : List Factor) → IsDistinct gs → IsDistinct (remove f gs)
unfolding remove
remove-IsDistinct f [] h = tt
remove-IsDistinct f (g ∷ gs) h =
    ground (arith, remove-IsDistinct f gs h.1, contains-remove g f gs h.0)

-- A distinct list loses at most one entry.
pub length-remove :
    (f : Factor) (gs : List Factor) → IsDistinct gs → length gs ≤ suc (length (remove f gs))
unfolding remove
length-remove f [] h = omega arith
length-remove f (g ∷ gs) h =
    ground
      (arith, length-remove f gs h.1, eq_iff g f, remove_of_absent g gs h.0, remove_of_absent f gs)

module _ {P Q : Factor → Type 0} where
  pub All-mono : ((f : Factor) → P f → Q f) → (fs : List Factor) → All P fs → All Q fs
  All-mono imp [] h = tt
  All-mono imp (f ∷ fs) (p, h) = (imp f p, All-mono imp fs h)

  -- What remains after a removal is not what was removed.
  pub All-remove :
      (g : Factor)
      → ((f : Factor) → g ≢ f → P f → Q f)
      → (fs : List Factor) → All P fs
      → All Q (remove g fs)
  unfolding remove
  All-remove g imp [] h = tt
  All-remove g imp (f ∷ fs) (p, h) = elim (Bool-cases (f == g)) [
    | inl e ↦ rw e (All-remove g imp fs h)
    | inr e ↦ rw e (imp f (λ same. ground (arith, eq_iff f g)) p, All-remove g imp fs h)
  ]

pub contains_of_All :
    (f : Factor) (P : Factor → Type 0) (gs : List Factor)
    → ((g : Factor) → P g → g ≢ f)
    → All P gs
    → contains f gs ≡ false
unfolding contains
contains_of_All f P [] ne h = refl
contains_of_All f P (g ∷ gs) ne (p, h) =
    ground (arith, eq_iff g f, ne g p, contains_of_All f P gs ne h)

pub All-at :
    (f : Factor) (P : Factor → Type 0) (gs : List Factor) → contains f gs ≡ true → All P gs → P f
unfolding contains
All-at f P [] c h = cc
All-at f P (g ∷ gs) c (p, h) = elim (Bool-cases (g == f)) [
  | inl e ↦ subst P ((eq_iff g f).0 e) p
  | inr e ↦ All-at f P gs (ground arith) h
]

pub contains-cons_of_ne :
    (f g : Factor) (gs : List Factor) → g ≢ f → contains f gs ≡ false → contains f (g ∷ gs) ≡ false
unfolding contains
contains-cons_of_ne f g gs ne h = ground (arith, eq_iff g f)
