-- ===== src/Wallet/Guard/Approval.antt =====
-- What an approval means: enough distinct factors, each decided by its first assertion.
use o2ul_portal.Common.{
  ℕ, ◌+◌, ◌≤◌, ◌≡◌, refl, ◌≢◌, ◌↔◌, true, false, some, List, [], ◌∷◌, ◌++◌, arith, eq_iff, inl, inr,
  Bool-cases, length, All, subst, sym, ok,
}
use o2ul_portal.Common.Int.{pos, ◌≤ℤ◌}
use o2ul_portal.Wallet.Guard.{
  Factor, Assertion, SpendIntent, Guard, contains, is_verified, count_approved, approval,
}
use o2ul_portal.Wallet.Guard.Factors.{
  IsDistinct, first_with, Accepts, remove, contains-cons_false, contains-cons_of_ne,
  remove_of_absent, remove-IsDistinct, length-remove, All-mono, All-remove, contains_of_All, All-at,
}

module _ (g : Guard) (intent : SpendIntent) where
  -- A factor that can still be counted.
  abbrev IsOpen : List Factor → List Assertion → Factor → Type 0
  IsOpen seen given f = (contains f seen ≡ false) × Accepts g intent given f

  first_with-ne :
      (a : Assertion) (given : List Assertion) (f : Factor)
      → a.factor ≢ f
      → first_with f (a ∷ given) ≡ first_with f given
  unfolding first_with
  first_with-ne a given f ne = ground (arith, eq_iff a.factor f)

  first_with_self :
      (a : Assertion) (given : List Assertion) → first_with a.factor (a ∷ given) ≡ some a
  unfolding first_with
  first_with_self a given = ground (arith, eq_iff a.factor a.factor)

  Accepts-cons :
      (a : Assertion) (given : List Assertion) (f : Factor)
      → a.factor ≢ f
      → Accepts g intent given f
      → Accepts g intent (a ∷ given) f
  Accepts-cons a given f ne v = record {
    assertion = v.assertion;
    first = rw (first_with-ne a given f ne) v.first;
    verified = v.verified;
  }

  Accepts-uncons :
      (a : Assertion) (given : List Assertion) (f : Factor)
      → a.factor ≢ f
      → Accepts g intent (a ∷ given) f
      → Accepts g intent given f
  Accepts-uncons a given f ne v = record {
    assertion = v.assertion;
    first = rw (first_with-ne a given f ne) at v.first;
    verified = v.verified;
  }

  ne_of_seen :
      (a : Assertion) (seen : List Factor) (f : Factor)
      → contains a.factor seen ≡ true
      → contains f seen ≡ false
      → a.factor ≢ f
  ne_of_seen a seen f p q e = cc

  abbrev Counted : List Factor → ℕ → List Assertion → Type 0
  Counted seen k given =
      (fs : List Factor) × IsDistinct fs
      × All (IsOpen seen given) fs
      × (count_approved g intent seen k given ≡ k + length fs)

  IsOpen-of_skipped :
      (a : Assertion) (seen : List Factor) (given : List Assertion)
      → contains a.factor seen ≡ true
      → (f : Factor) → IsOpen seen given f
      → IsOpen seen (a ∷ given) f
  IsOpen-of_skipped a seen given dup f (q, v) =
      (q, Accepts-cons a given f (ne_of_seen a seen f dup q) v)

  IsOpen-of_counted :
      (a : Assertion) (seen : List Factor) (given : List Assertion) (f : Factor)
      → IsOpen (a.factor ∷ seen) given f
      → IsOpen seen (a ∷ given) f
  IsOpen-of_counted a seen given f (q, v) =
      let (ne, q') = contains-cons_false f a.factor seen q in (q', Accepts-cons a given f ne v)

  -- One more assertion: its factor is counted if it is new and verified.
  count_sound : (seen : List Factor) (k : ℕ) (given : List Assertion) → Counted seen k given
  unfolding count_approved
  count_sound seen k [] = ([], tt, tt, omega arith)
  count_sound seen k (a ∷ given) = elim (Bool-cases (contains a.factor seen)) [
    | inl dup ↦
        let (fs, d, all, e) = count_sound seen k given in
        (fs, d, All-mono (IsOpen-of_skipped a seen given dup) fs all, rw dup e)
    | inr new ↦ elim (Bool-cases (is_verified g intent a)) [
      | inl good ↦
          let (fs, d, all, e) = count_sound (a.factor ∷ seen) (k + 1) given in
          (
            a.factor ∷ fs,
            (
              contains_of_All a.factor _ fs
                  (λ f (q, _) same. (contains-cons_false f a.factor seen q).0 (sym same)) all,
              d,
            ),
            (
              (new, record { assertion = a; first = first_with_self a given; verified = good }),
              All-mono (IsOpen-of_counted a seen given) fs all,
            ),
            rw (new, good, e) (omega arith),
          )
      | inr bad ↦
          let (fs, d, all, e) = count_sound (a.factor ∷ seen) k given in
          (fs, d, All-mono (IsOpen-of_counted a seen given) fs all, rw (new, bad) e)
    ]
  ]

  verified_of_open :
      (a : Assertion) (given : List Assertion)
      → Accepts g intent (a ∷ given) a.factor
      → is_verified g intent a ≡ true
  verified_of_open a given v = ground (arith, v.first, first_with_self a given, v.verified)

  absent_of_bad :
      (a : Assertion) (seen : List Factor) (given : List Assertion) (fs : List Factor)
      → is_verified g intent a ≡ false
      → All (IsOpen seen (a ∷ given)) fs
      → contains a.factor fs ≡ false
  absent_of_bad a seen given fs bad all = elim (Bool-cases (contains a.factor fs)) [
    | inl e ↦
        let held = All-at a.factor (IsOpen seen (a ∷ given)) fs e all in
        cc (bad, verified_of_open a given held.1)
    | inr e ↦ e
  ]

  open_nil : (seen : List Factor) (f : Factor) → IsOpen seen [] f → ⊥
  unfolding first_with
  open_nil seen f o = cc (o.1.first)

  -- No distinct list of accepted factors is longer than the count.
  count_complete :
      (seen : List Factor) (k : ℕ) (given : List Assertion) (fs : List Factor)
      → IsDistinct fs
      → All (IsOpen seen given) fs
      → k + length fs ≤ count_approved g intent seen k given
  unfolding count_approved
  count_complete seen k [] [] d all = omega arith
  count_complete seen k [] (f ∷ fs) d all = absurd (open_nil seen f all.0)
  count_complete seen k (a ∷ given) fs d all = elim (Bool-cases (contains a.factor seen)) [
    | inl dup ↦ rw dup (
        count_complete seen k given fs d (
          All-mono (λ f (q, v). (q, Accepts-uncons a given f (ne_of_seen a seen f dup q) v)) fs
            all))
    | inr new ↦
        let rest : All (IsOpen (a.factor ∷ seen) given) (remove a.factor fs) =
          All-remove a.factor
            (λ f ne (q, v).
              (contains-cons_of_ne f a.factor seen ne q, Accepts-uncons a given f ne v))
            fs all in
        let less = λ (j : ℕ).
          count_complete (a.factor ∷ seen) j given (remove a.factor fs)
            (remove-IsDistinct a.factor fs d) rest in
        elim (Bool-cases (is_verified g intent a)) [
          | inl good ↦ rw (new, good) (omega (arith, less (k + 1), length-remove a.factor fs d))
          | inr bad ↦
              rw (new, bad)
                (subst (λ x. k + length x ≤ count_approved g intent (a.factor ∷ seen) k given)
                  (remove_of_absent a.factor fs (absent_of_bad a seen given fs bad all)) (less k))
        ]
  ]

  -- `approval` succeeds exactly if there are distinct factors, at least as many as the threshold,
  -- each with a verifier that accepts the first assertion naming it: repeating a factor never
  -- counts twice, and a later assertion never replaces the first one of its factor.
  pub approval_iff :
      (given : List Assertion)
      → (approval g intent given ≡ ok tt) ↔ (
          (fs : List Factor) × IsDistinct fs
          × All (Accepts g intent given) fs
          × (g.threshold ≤ℤ pos (length fs)))
  unfolding approval contains
  approval_iff given = (
    λ h.
        let (fs, d, all, e) = count_sound [] 0 given in
        (fs, d, All-mono (λ f o. o.1) fs all, ground (arith, e)),
    λ (fs, d, all, le).
        ground (arith, count_complete [] 0 given fs d (All-mono (λ f v. (refl, v)) fs all)),
  )

  first_with-append :
      (f : Factor) (given more : List Assertion) (a : Assertion)
      → first_with f given ≡ some a
      → first_with f (given ++ more) ≡ some a
  unfolding first_with
  first_with-append f [] more a h = cc
  first_with-append f (b ∷ given) more a h = ground (arith, first_with-append f given more a)

  -- Further assertions at the end never undo an approval.
  pub approval-append :
      (given more : List Assertion)
      → approval g intent given ≡ ok tt
      → approval g intent (given ++ more) ≡ ok tt
  approval-append given more h =
      let (fs, d, all, le) = (approval_iff given).0 h in
      (approval_iff (given ++ more)).1 (
        fs,
        d,
        All-mono
            (λ f v. record {
              assertion = v.assertion;
              first = first_with-append f given more v.assertion v.first;
              verified = v.verified;
            })
            fs all,
        le,
      )
