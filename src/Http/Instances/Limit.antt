-- ===== src/Http/Instances/Limit.antt =====
-- The limit of a listing: walking back from the newest entry, against walking forward.
use mathlib.Core.List.{
  reverse, zip, reverse-append, reverse-cons, reverse-reverse, append-nil, append_assoc,
}
use o2ul_portal.Common.{
  ℕ, zero, suc, ◌-◌, ◌≤◌, ◌<◌, true, Option, none, some, List, [], ◌∷◌, ◌++◌, ◌≡◌, refl, sym, ap,
  ◌∙◌, arith, inl, inr, ltb, Bool-cases, length, take, drop, length-append, length-drop,
}
use o2ul_portal.Http.Instances.Logs.{take-drop, drop_none, drop-append}
use o2ul_portal.Http.Instances.{Raw, LogStore, newest, is_stale, collect, collect_back, select_logs}

module _ {ℓ} {A : Type ℓ} where
  length-reverse : (xs : List A) → length (reverse xs) ≡ length xs
  length-reverse [] = refl
  length-reverse (x ∷ xs) =
      ap length (reverse-cons x xs)
      ∙ omega (arith, length-append (reverse xs) (x ∷ []), length-reverse xs)

  -- The first of the reversed list are the newest, in reverse.
  reverse-take-reverse : (n : ℕ) (xs : List A) → reverse (take n (reverse xs)) ≡ newest n xs
  reverse-take-reverse n xs =
      let ys = reverse xs in
      let halves : xs ≡ reverse (drop n ys) ++ reverse (take n ys) =
        sym (reverse-reverse xs)
        ∙ (ap reverse (sym (take-drop n ys)) ∙ reverse-append (take n ys) (drop n ys)) in
      let count : length xs - n ≡ length (reverse (drop n ys)) =
        omega (arith, length-reverse (drop n ys), length-drop n ys, length-reverse xs) in
      sym (
        ap (drop (length xs - n)) halves
        ∙ drop-append (reverse (drop n ys)) (reverse (take n ys)) (length xs - n) count)

collect-append :
    (since : ℕ) (xs ys : List (Raw × ℕ))
    → collect since (xs ++ ys) ≡ collect since xs ++ collect since ys
unfolding collect
collect-append since [] ys = refl
collect-append since ((raw, time) ∷ xs) ys = elim (Bool-cases (is_stale since time)) [
  | inl e ↦ rw e (collect-append since xs ys)
  | inr e ↦ rw e (ap (λ zs. raw ∷ zs) (collect-append since xs ys))
]

collect-reverse :
    (since : ℕ) (xs : List (Raw × ℕ)) → collect since (reverse xs) ≡ reverse (collect since xs)
unfolding collect
collect-reverse since [] = refl
collect-reverse since ((raw, time) ∷ xs) =
    ap (collect since) (reverse-cons (raw, time) xs)
    ∙ (collect-append since (reverse xs) ((raw, time) ∷ [])
        ∙ elim (Bool-cases (is_stale since time)) [
          | inl e ↦ rw e (append-nil (collect since (reverse xs)) ∙ collect-reverse since xs)
          | inr e ↦ rw e (
              ap (λ zs. zs ++ raw ∷ []) (collect-reverse since xs)
              ∙ sym (reverse-cons raw (collect since xs)))
        ])

take-suc {ℓ} :
    {A : Type ℓ} (n m : ℕ) (x : A) (xs : List A) → n ≡ suc m → take n (x ∷ xs) ≡ x ∷ take m xs
take-suc n m x xs h = rw h refl

take_none {ℓ} : {A : Type ℓ} (n : ℕ) (xs : List A) → n ≡ 0 → take n xs ≡ []
take_none n xs h = rw h refl

take_nil {ℓ} : {A : Type ℓ} (n : ℕ) → take {A = A} n [] ≡ []
take_nil zero = refl
take_nil (suc n) = refl

collect_back-eq :
    (since limit : ℕ) (es : List (Raw × ℕ)) (out : List Raw)
    → length out ≤ limit
    → collect_back since limit es out ≡ out ++ take (limit - length out) (collect since es)
unfolding collect collect_back
collect_back-eq since limit [] out h =
    sym (ap (λ z. out ++ z) (take_nil (limit - length out)) ∙ append-nil out)
collect_back-eq since limit ((raw, time) ∷ es) out h = elim (Bool-cases (ltb (length out) limit)) [
  | inr e ↦
      rw e (
        sym (ap (λ z. out ++ z) (take_none (limit - length out) _ (ground arith)) ∙ append-nil out))
  | inl e ↦ rw e (elim (Bool-cases (is_stale since time)) [
    | inl f ↦ rw f (collect_back-eq since limit es out h)
    | inr f ↦
        let room : limit - length out ≡ suc (limit - length (out ++ raw ∷ [])) =
          ground (arith, length-append out (raw ∷ [])) in
        let fits : length (out ++ raw ∷ []) ≤ limit =
          ground (arith, length-append out (raw ∷ [])) in
        rw f (
          collect_back-eq since limit es (out ++ raw ∷ []) fits
          ∙ (append_assoc out (raw ∷ []) _
              ∙ ap (λ z. out ++ z) (sym (take-suc _ _ raw (collect since es) room))))
  ])
]

-- A limit picks the newest of the entries that are given out without a limit, in the same order:
-- walking back from the newest entry and turning the result round is as good as walking forward.
pub select_logs-limit :
    (store : LogStore) (since : Option ℕ) (limit : ℕ)
    → 0 < limit
    → select_logs store since limit ≡ newest limit (select_logs store since 0)
unfolding select_logs
select_logs-limit store none limit h =
    let positive : ltb 0 limit ≡ true = ground arith in
    elim (Bool-cases (ltb limit (length store.logs))) [
      | inl e ↦ rw positive (rw e refl)
      | inr e ↦
          rw positive (rw e (sym (drop_none (length store.logs - limit) store.logs (ground arith))))
    ]
select_logs-limit store (some since) limit h =
    let positive : ltb 0 limit ≡ true = ground arith in
    let entries = zip store.logs store.log_times in
    rw positive (
      ap reverse (
        collect_back-eq since limit (reverse entries) [] (omega arith)
        ∙ (ap (λ z. take z (collect since (reverse entries))) (omega arith)
            ∙ ap (take limit) (collect-reverse since entries)))
      ∙ reverse-take-reverse limit (collect since entries))
