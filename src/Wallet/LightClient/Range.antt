-- ===== src/Wallet/LightClient/Range.antt =====
-- What `FetchRange` returns, and where it does not return.
use o2ul_portal.Common.{
  ◌^◌, ℕ, zero, suc, ◌+◌, ◌-◌, ◌%◌, ◌≤◌, ◌<◌, ◌≡◌, refl, ◌↔◌, String, none, some, List, [], ◌∷◌,
  ◌++◌, arith, eq_iff, inl, inr, Result, ok, err, ◌>>=◌, >>-eq-ok, >>=-eq-ok, subst, Result-cases,
  Bool-cases, ltb, sym, ap, ◌∙◌,
}
use mathlib.Core.List.{append_assoc, append-nil}
use o2ul_portal.Wallet.LightClient.{
  u64_mod, Memory, no_room, Header, hash_header, verify_after, verify_header_chain, fetch_from,
  fetch_range, verified,
}

-- Each header has the next number and the hash of the one before it.
abbrev pub LinkedAfter : (String → String) → Header → List Header → Type 0
LinkedAfter sha prev [] = Unit
LinkedAfter sha prev (curr ∷ headers) =
    (curr.number ≡ (prev.number + 1) % u64_mod)
    × (curr.parent_hash ≡ hash_header sha prev)
    × LinkedAfter sha curr headers

abbrev pub Linked : (String → String) → List Header → Type 0
Linked sha [] = Unit
Linked sha (h ∷ headers) = LinkedAfter sha h headers

module _ (sha : String → String) where
  verify_after_iff :
      (prev : Header) (headers : List Header)
      → (verify_after sha prev headers ≡ ok tt) ↔ LinkedAfter sha prev headers
  unfolding verify_after
  verify_after_iff prev [] = (λ h. tt, λ h. refl)
  verify_after_iff prev (curr ∷ headers) = (
    λ h.
        ground (
          arith,
          eq_iff curr.parent_hash (hash_header sha prev),
          (verify_after_iff curr headers).0,
        ),
    λ h.
        ground (
          arith,
          eq_iff curr.parent_hash (hash_header sha prev),
          (verify_after_iff curr headers).1,
        ),
  )

  -- `VerifyHeaderChain` accepts exactly the linked chains.
  pub verify_header_chain_iff :
      (headers : List Header) → (verify_header_chain sha headers ≡ ok tt) ↔ Linked sha headers
  unfolding verify_header_chain
  verify_header_chain_iff [] = (λ h. tt, λ h. refl)
  verify_header_chain_iff (h ∷ headers) = verify_after_iff h headers

-- The answers of the RPC to `count` numbers from `n` on, up to the first error.
pub answers : (ℕ → Result Header) → ℕ → ℕ → Result (List Header)
answers rpc n zero = ok []
answers rpc n (suc count) = do h ← rpc n; hs ← answers rpc (n + 1) count; ok (h ∷ hs)

module _ (rpc : ℕ → Result Header) where
  -- One round of the loop below the end of the counter's range.
  fetch_round :
      (fuel n last : ℕ) (out : List Header) {r : Result Header}
      → n ≤ last
      → last + 1 < u64_mod
      → rpc n ≡ r
      → fetch_from rpc (suc fuel) n last out
        ≡ elim r [ err e ↦ some (err e) | ok h ↦ fetch_from rpc fuel (n + 1) last (out ++ h ∷ []) ]
  unfolding fetch_from
  fetch_round fuel n last out le small e =
      let next : (n + 1) % u64_mod ≡ n + 1 = omega arith in ground (arith, e, next)

  fetch_from_never :
      (fuel n : ℕ) (out : List Header)
      → ((n : ℕ) → (h : Header) × (rpc n ≡ ok h))
      → n < u64_mod
      → fetch_from rpc fuel n (u64_mod - 1) out ≡ none
  unfolding fetch_from
  fetch_from_never zero n out answered small = refl
  fetch_from_never (suc fuel) n out answered small =
      let (h, e) = answered n in
      let rest = fetch_from_never fuel ((n + 1) % u64_mod) (out ++ h ∷ []) answered (omega arith) in
      ground (arith, e, rest)

  fetch_done :
      (fuel n last : ℕ) (out : List Header)
      → last < n
      → fetch_from rpc (suc fuel) n last out ≡ some (ok out)
  unfolding fetch_from
  fetch_done fuel n last out lt = ground arith

  -- While the counter does not wrap around, the loop collects the answers in order.
  fetch_from-answers :
      (count n last : ℕ) (out : List Header)
      → n + count ≡ last + 1
      → last + 1 < u64_mod
      → fetch_from rpc (suc count) n last out ≡ some (answers rpc n count >>= λ hs. ok (out ++ hs))
  unfolding answers
  fetch_from-answers zero n last out e small = fetch_done 0 n last out (omega arith) ∙ rw append-nil
  fetch_from-answers (suc count) n last out e small = elim (Result-cases (rpc n)) [
    | inl (h, f) ↦
        fetch_round (suc count) n last out (omega arith) small f
        ∙ fetch_from-answers count (n + 1) last (out ++ h ∷ []) (omega arith) small
        ∙ rw f (elim (Result-cases (answers rpc (n + 1) count)) [
          | inl (hs, g) ↦ rw g (rw append_assoc)
          | inr (x, g) ↦ rw g
        ])
    | inr (x, f) ↦ fetch_round (suc count) n last out (omega arith) small f ∙ rw f
  ]

bind_ok {ℓ} : {A : Type ℓ} (r : Result A) → (r >>= λ a. ok a) ≡ r
bind_ok (ok a) = refl
bind_ok (err e) = refl

fetch_from_start :
    (rpc : ℕ → Result Header) (start count : ℕ)
    → start + count + 1 < u64_mod
    → fetch_from rpc (count + 2) start (start + count) [] ≡ some (answers rpc start (count + 1))
fetch_from_start rpc start count small =
    let rounds : suc (count + 1) ≡ count + 2 = omega arith in
    subst (λ k. fetch_from rpc k start (start + count) [] ≡ some (answers rpc start (count + 1)))
      rounds
      (fetch_from-answers rpc (count + 1) start (start + count) [] (omega arith) small
        ∙ ap some (bind_ok (answers rpc start (count + 1))))

verified_iff :
    (sha : String → String) (out hs : List Header)
    → (verified sha out ≡ ok hs) ↔ ((out ≡ hs) × Linked sha hs)
verified_iff sha out hs = (
  λ h.
      let (linked, same) = (>>-eq-ok (verify_header_chain sha out) (ok out) hs).0 h in
      let e : out ≡ hs = cc same in
      (e, subst (Linked sha) e ((verify_header_chain_iff sha out).0 linked)),
  λ (e, linked).
      (>>-eq-ok (verify_header_chain sha out) (ok out) hs).1
        ((verify_header_chain_iff sha out).1 (subst (Linked sha) (sym e) linked), ap ok e),
)

-- `FetchRange` of a range that ends below the largest uint64 comes to an end after one round a
-- header and one test more, and it returns the headers `hs` exactly if there is room for the range,
-- and they are the RPC's answers for the numbers from `start` to `start + count`, in order, and form
-- a linked chain.
pub fetch_range_below_max :
    (sha : String → String) (memory : Memory) (rpc : ℕ → Result Header) (start count : ℕ)
    → start + count + 1 < u64_mod
    → (r : Result (List Header)) × (fetch_range sha memory rpc (count + 2) start (start + count)
        ≡ some r)
      × ((hs : List Header)
          → (r ≡ ok hs) ↔ (
              (count + 1 ≤ memory.max_headers)
              × (answers rpc start (count + 1) ≡ ok hs)
              × Linked sha hs))
unfolding fetch_range
fetch_range_below_max sha memory rpc start count small =
    let capacity : (start + count - start + 1) % u64_mod ≡ count + 1 = omega arith in
    elim (Bool-cases (ltb memory.max_headers (count + 1))) [
      | inl over ↦ (
        err no_room,
        ground (arith, capacity, over),
        λ hs. (λ h. cc h, λ (room, _, _). absurd (ground (arith, room, over))),
      )
      | inr fits ↦ (
        answers rpc start (count + 1) >>= verified sha,
        ground (arith, capacity, fits, fetch_from_start rpc start count small),
        λ hs. (
          λ h.
              let (out, e, f) = >>=-eq-ok (answers rpc start (count + 1)) (verified sha) h in
              let (same, linked) = (verified_iff sha out hs).0 f in
              (ground (arith, fits), e ∙ ap ok same, linked),
          λ (room, e, linked). rw e ((verified_iff sha hs hs).1 (refl, linked)),
        ),
      )
    ]

-- A range of at most 2 ^ 32 numbers that ends at the largest uint64 is never returned while the
-- RPC answers: the counter wraps around to 0 and the test of the loop holds for every number.
pub fetch_range_at_max :
    (sha : String → String) (memory : Memory) (rpc : ℕ → Result Header) (fuel start : ℕ)
    → ((n : ℕ) → (h : Header) × (rpc n ≡ ok h))
    → start < u64_mod
    → u64_mod ≤ start + 2 ^ 32
    → fetch_range sha memory rpc fuel start (u64_mod - 1) ≡ none
unfolding fetch_range
fetch_range_at_max sha memory rpc fuel start answered h near =
    let room : (u64_mod - 1 - start + 1) % u64_mod ≤ memory.max_headers =
      omega (arith, memory.enough, h, near) in
    ground (arith, room, fetch_from_never rpc fuel start [] answered h)
