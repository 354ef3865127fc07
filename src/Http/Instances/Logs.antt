-- ===== src/Http/Instances/Logs.antt =====
-- What the log store keeps of the entries that are ingested.
use mathlib.Core.List.{append-nil, append_assoc}
use o2ul_portal.Common.{
  ℕ, zero, suc, ◌-◌, ◌≤◌, true, false, List, [], ◌∷◌, ◌++◌, ◌≡◌, refl, sym, ap, ◌∙◌, subst, arith,
  inl, inr, ◌⊎◌, ltb, Bool-cases, map, length, take, drop, length-append, length-drop,
  if◌then◌else◌, Result, ok,
}
use o2ul_portal.Http.Instances.{
  Raw, LogStore, empty_store, max_logs, newest, extract_log_timestamp, append_log, ingest_log,
}

-- What a sequence of ingested entries leaves.
pub ingest_all : (Raw → Result ℕ) → List Raw → LogStore → LogStore
ingest_all unmarshal [] store = store
ingest_all unmarshal (raw ∷ raws) store =
    ingest_all unmarshal raws (ingest_log unmarshal (ok raw) store).1

module _ {ℓ} {A : Type ℓ} where
  pub drop-append : (xs ys : List A) (n : ℕ) → n ≡ length xs → drop n (xs ++ ys) ≡ ys
  drop-append [] ys n h = rw h refl
  drop-append (x ∷ xs) ys n h = rw h (drop-append xs ys (length xs) refl)

  pub take-drop : (n : ℕ) (xs : List A) → take n xs ++ drop n xs ≡ xs
  take-drop zero xs = refl
  take-drop (suc n) [] = refl
  take-drop (suc n) (x ∷ xs) = ap (λ ys. x ∷ ys) (take-drop n xs)

  pub drop_none : (n : ℕ) (xs : List A) → n ≡ 0 → drop n xs ≡ xs
  drop_none n xs h = rw h refl

  -- `kept` are the last `n` of `all`, or all of them if they are fewer.
  record IsKept (n : ℕ) (all kept : List A) : Type ℓ where
    pub gone : List A
    pub whole : gone ++ kept ≡ all
    pub full : (length kept ≡ n) ⊎ ((gone ≡ []) × (length kept ≤ n))

  IsKept-newest : (n : ℕ) (all kept : List A) → IsKept n all kept → kept ≡ newest n all
  IsKept-newest n all kept k = elim (k.full) [
    | inl e ↦
        rw (← k.whole) (sym (drop-append k.gone kept _ (omega (arith, length-append k.gone kept))))
    | inr (e, le) ↦
        let same : kept ≡ all = ap (λ z. z ++ kept) (sym e) ∙ k.whole in
        rw (← same) (sym (drop_none (length kept - n) kept (omega arith)))
  ]

  IsKept-append :
      (n : ℕ) (all kept : List A) (x : A)
      → IsKept n all kept
      → IsKept n
          (all ++ x ∷ [])
          (if ltb n (length (kept ++ x ∷ [])) then newest n (kept ++ x ∷ []) else kept ++ x ∷ [])
  IsKept-append n all kept x k = elim (Bool-cases (ltb n (length (kept ++ x ∷ [])))) [
    | inl over ↦
        let more = kept ++ x ∷ [] in
        let old = length more - n in
        rw over (record {
          gone = k.gone ++ take old more;
          whole =
              append_assoc k.gone (take old more) (drop old more)
              ∙ (ap (λ z. k.gone ++ z) (take-drop old more)
                  ∙ (sym (append_assoc k.gone kept (x ∷ [])) ∙ ap (λ z. z ++ x ∷ []) k.whole));
          full = inl (ground (arith, length-drop old more));
        })
    | inr fits ↦ rw fits (record {
      gone = k.gone;
      whole = sym (append_assoc k.gone kept (x ∷ [])) ∙ ap (λ z. z ++ x ∷ []) k.whole;
      full = elim (k.full) [
        | inl e ↦ ground (arith, length-append kept (x ∷ []))
        | inr (e, le) ↦ inr (e, ground arith)
      ];
    })
  ]

-- Both slices of a store keep the newest entries.
record Keeps (all : List Raw) (times : List ℕ) (store : LogStore) : Type 0 where
  pub logs_kept : IsKept max_logs all store.logs
  pub times_kept : IsKept max_logs times store.log_times
  pub same_length : length store.logs ≡ length store.log_times

module _ {ℓ} {A : Type ℓ} where
  -- what append_log makes of one of the slices
  abbrev appended : A → List A → List A
  appended x xs =
      if ltb max_logs (length (xs ++ x ∷ [])) then newest max_logs (xs ++ x ∷ []) else xs ++ x ∷ []

append_log-appended :
    (raw : Raw) (time : ℕ) (store : LogStore)
    → length store.logs ≡ length store.log_times
    → ((append_log raw time store).logs ≡ appended raw store.logs)
      × ((append_log raw time store).log_times ≡ appended time store.log_times)
      × (length (append_log raw time store).logs ≡ length (append_log raw time store).log_times)
unfolding append_log
append_log-appended raw time store same =
    let logs = length-append store.logs (raw ∷ []) in
    let times = length-append store.log_times (time ∷ []) in
    let lengths : length (store.logs ++ raw ∷ []) ≡ length (store.log_times ++ time ∷ []) =
      omega (arith, logs, times) in
    elim (Bool-cases (ltb max_logs (length (store.logs ++ raw ∷ [])))) [
      | inl over ↦
          let over' : ltb max_logs (length (store.log_times ++ time ∷ [])) ≡ true =
            ap (ltb max_logs) (sym lengths) ∙ over in
          (
            rw over refl,
            rw over (rw over' refl),
            rw over (
                omega (
                  arith,
                  length-drop (length (store.logs ++ raw ∷ []) - max_logs) (store.logs ++ raw ∷ []),
                  length-drop (length (store.log_times ++ time ∷ []) - max_logs)
                      (store.log_times ++ time ∷ []),
                )),
          )
      | inr fits ↦
          let fits' : ltb max_logs (length (store.log_times ++ time ∷ [])) ≡ false =
            ap (ltb max_logs) (sym lengths) ∙ fits in
          (rw fits refl, rw fits (rw fits' refl), rw fits lengths)
    ]

append_log-Keeps :
    (raw : Raw) (time : ℕ) (all : List Raw) (times : List ℕ) (store : LogStore)
    → Keeps all times store
    → Keeps (all ++ raw ∷ []) (times ++ time ∷ []) (append_log raw time store)
append_log-Keeps raw time all times store k =
    let (logs, log_times, same) = append_log-appended raw time store k.same_length in
    record {
      logs_kept =
          subst (IsKept max_logs (all ++ raw ∷ [])) (sym logs)
            (IsKept-append max_logs all store.logs raw k.logs_kept);
      times_kept =
          subst (IsKept max_logs (times ++ time ∷ [])) (sym log_times)
            (IsKept-append max_logs times store.log_times time k.times_kept);
      same_length = same;
    }

ingest_all-Keeps :
    (unmarshal : Raw → Result ℕ) (raws all : List Raw) (times : List ℕ) (store : LogStore)
    → Keeps all times store
    → Keeps
        (all ++ raws)
        (times ++ map (extract_log_timestamp unmarshal) raws)
        (ingest_all unmarshal raws store)
unfolding ingest_all ingest_log
ingest_all-Keeps unmarshal [] all times store k = rw (append-nil all) (rw (append-nil times) k)
ingest_all-Keeps unmarshal (raw ∷ raws) all times store k =
    let time = extract_log_timestamp unmarshal raw in
    rw (← append_assoc all (raw ∷ []) raws) (
      rw (← append_assoc times (time ∷ []) (map (extract_log_timestamp unmarshal) raws)) (
        ingest_all-Keeps unmarshal raws (all ++ raw ∷ []) (times ++ time ∷ [])
          (append_log raw time store) (append_log-Keeps raw time all times store k)))

empty-Keeps : Keeps [] [] empty_store
empty-Keeps = record {
  logs_kept = record { gone = []; whole = refl; full = inr (refl, omega arith) };
  times_kept = record { gone = []; whole = refl; full = inr (refl, omega arith) };
  same_length = refl;
}

-- After any number of entries the log store holds the newest thousand of them in order, each with
-- its time.
pub ingest_all-newest :
    (unmarshal : Raw → Result ℕ) (raws : List Raw)
    → ((ingest_all unmarshal raws empty_store).logs ≡ newest max_logs raws)
      × ((ingest_all unmarshal raws empty_store).log_times
          ≡ newest max_logs (map (extract_log_timestamp unmarshal) raws))
      × (length (ingest_all unmarshal raws empty_store).logs ≤ max_logs)
ingest_all-newest unmarshal raws =
    let k = ingest_all-Keeps unmarshal raws [] [] empty_store empty-Keeps in
    let logs = IsKept-newest max_logs raws _ (k.logs_kept) in
    (
      logs,
      IsKept-newest max_logs (map (extract_log_timestamp unmarshal) raws) _ (k.times_kept),
      elim (k.logs_kept.full) [ inl e ↦ omega (arith, e) | inr (e, le) ↦ le ],
    )
