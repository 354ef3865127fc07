-- ===== src/Wallet/Service/Scan.antt =====
-- What `ScanNotes` shows.
use o2ul_portal.Common.{
  true, concat, ℕ, zero, suc, ◌+◌, ◌≤◌, ◌≡◌, refl, ◌≢◌, String, Bool, false, not, ◌&&◌, List, [],
  ◌∷◌, ◌++◌, arith, eq_iff, ◌==◌, inl, inr, Bool-cases, if◌then◌else◌, Map, All, length, take, ok,
  trim_space, ◌∙◌, ap, sym, length-append, length-take, subst,
}
use mathlib.Core.List.{append_assoc, append-nil}
use o2ul_portal.Common.Int.{ℤ, pos, negsuc, pos_part}
use o2ul_portal.Wallet.Service.Notes.{
  WalletNote, Service, spent_of, is_true, status_spent, mark_spent, collect, fixture_notes,
  scan_limit, scan_notes,
}

-- The notes that a scan may show: all of them, or those that are not spent.
pub visible : Bool → List WalletNote → List WalletNote
visible include_spent [] = []
visible include_spent (note ∷ notes) =
    let rest = visible include_spent notes in
    if not include_spent && note.status == status_spent then rest else note ∷ rest

-- The loop collects the first visible notes, up to the limit.
collect-take :
    (include_spent : Bool) (limit room : ℕ) (filtered notes : List WalletNote)
    → length filtered + suc room ≡ limit
    → collect include_spent (pos limit) filtered notes
      ≡ filtered ++ take (suc room) (visible include_spent notes)
unfolding collect visible
collect-take include_spent limit room filtered [] e = sym (append-nil filtered)
collect-take include_spent limit zero filtered (note ∷ notes) e =
    elim (Bool-cases (not include_spent && note.status == status_spent)) [
      | inl hidden ↦ rw hidden (collect-take include_spent limit zero filtered notes e)
      | inr shown ↦ rw shown (ground (arith, length-append filtered (note ∷ [])))
    ]
collect-take include_spent limit (suc room) filtered (note ∷ notes) e =
    elim (Bool-cases (not include_spent && note.status == status_spent)) [
      | inl hidden ↦ rw hidden (collect-take include_spent limit (suc room) filtered notes e)
      | inr shown ↦
          let len = length-append filtered (note ∷ []) in
          rw shown (
            ground (
              arith,
              len,
              collect-take include_spent limit room (filtered ++ note ∷ []) notes
                  (omega (arith, len)),
              append_assoc filtered (note ∷ []) (take (suc room) (visible include_spent notes)),
            ))
    ]

-- A note that a scan without spent notes may show: it is not marked, and nobody spent it.
abbrev pub IsAvailable : Map Bool → WalletNote → Type 0
IsAvailable spent note = (note.status ≢ status_spent) × (is_true spent note.note_id ≡ false)

visible-IsAvailable :
    (spent : Map Bool) (notes : List WalletNote)
    → All (IsAvailable spent) (visible false (mark_spent spent notes))
unfolding visible mark_spent
visible-IsAvailable spent [] = tt
visible-IsAvailable spent (note ∷ notes) = elim (Bool-cases (is_true spent note.note_id)) [
  | inl marked ↦ rw marked (visible-IsAvailable spent notes)
  | inr unmarked ↦ elim (Bool-cases (note.status == status_spent)) [
    | inl gone ↦ rw unmarked (rw gone (visible-IsAvailable spent notes))
    | inr here ↦ rw unmarked (
        rw here (
          (λ e. ground (arith, eq_iff note.status status_spent), unmarked),
          visible-IsAvailable spent notes,
        ))
  ]
]

take-All {ℓ κ} : {A : Type ℓ} (P : A → Type κ) (n : ℕ) (xs : List A) → All P xs → All P (take n xs)
take-All P zero xs h = tt
take-All P (suc n) [] h = tt
take-All P (suc n) (x ∷ xs) (p, h) = (p, take-All P n xs h)

-- The number of notes asked for, where a limit of zero or less asks for 25.
abbrev pub wanted : ℤ → ℕ
wanted limit = pos_part (scan_limit limit)

-- The limit of a scan is at least one.
scan_limit-positive :
    (limit : ℤ) → (room : ℕ) × (scan_limit limit ≡ pos (suc room)) × (wanted limit ≡ suc room)
scan_limit-positive (pos zero) = (24, refl, refl)
scan_limit-positive (pos (suc n)) = (n, ground arith, ground arith)
scan_limit-positive (negsuc n) = (24, ground arith, ground arith)

-- A scan that succeeds shows the first visible notes of the wallet, at most as many as asked for.
pub scan_notes-take :
    (s : Service) (wallet asset : String) (include_spent : Bool) (limit : ℤ)
    (notes : List WalletNote)
    → scan_notes s wallet asset include_spent limit ≡ ok notes
    → notes
      ≡ take (wanted limit) (
          visible include_spent (
            mark_spent
              (spent_of s (trim_space wallet))
              (fixture_notes (trim_space wallet) (trim_space asset))))
unfolding scan_notes
scan_notes-take s wallet asset include_spent limit notes h =
    let (room, e, w) = scan_limit-positive limit in
    let all =
      mark_spent (spent_of s (trim_space wallet))
        (fixture_notes (trim_space wallet) (trim_space asset)) in
    let k = collect-take include_spent (suc room) room [] all (omega arith) in
    let collected : collect include_spent (scan_limit limit) [] all ≡ notes = ground arith in
    sym collected
    ∙ ap (λ l. collect include_spent l [] all) e
    ∙ k
    ∙ ap (λ n. take n (visible include_spent all)) (sym w)

-- Without spent notes, a scan that succeeds shows at most as many notes as asked for, and none
-- that is marked as spent or that a submitted transaction spent.
pub scan_notes-IsAvailable :
    (s : Service) (wallet asset : String) (limit : ℤ) (notes : List WalletNote)
    → scan_notes s wallet asset false limit ≡ ok notes
    → (length notes ≤ wanted limit) × All (IsAvailable (spent_of s (trim_space wallet))) notes
scan_notes-IsAvailable s wallet asset limit notes h =
    let spent = spent_of s (trim_space wallet) in
    let all = fixture_notes (trim_space wallet) (trim_space asset) in
    let vis = visible false (mark_spent spent all) in
    let e = scan_notes-take s wallet asset false limit notes h in
    (
      subst (λ ns. length ns ≤ wanted limit) (sym e)
          (omega (arith, length-take (wanted limit) vis)),
      subst (All (IsAvailable spent)) (sym e)
          (take-All (IsAvailable spent) (wanted limit) vis (visible-IsAvailable spent all)),
    )

-- A note of this wallet, by its id, that is shown as spent if a transaction of the wallet spent it.
abbrev pub IsNoteOf : Service → String → WalletNote → Type 0
IsNoteOf s wallet note =
    ((rest : String) × (note.note_id ≡ concat wallet (concat "-note-" rest)))
    × (is_true (spent_of s wallet) note.note_id ≡ true → note.status ≡ "spent")

abbrev HasNoteId : String → WalletNote → Type 0
HasNoteId wallet note = (rest : String) × (note.note_id ≡ concat wallet (concat "-note-" rest))

visible-All {κ} :
    (P : WalletNote → Type κ) (include_spent : Bool) (notes : List WalletNote)
    → All P notes
    → All P (visible include_spent notes)
unfolding visible
visible-All P include_spent [] h = tt
visible-All P include_spent (note ∷ notes) (p, h) =
    elim (Bool-cases (not include_spent && note.status == status_spent)) [
      | inl hidden ↦ rw hidden (visible-All P include_spent notes h)
      | inr shown ↦ rw shown (p, visible-All P include_spent notes h)
    ]

mark_spent-IsNoteOf :
    (s : Service) (wallet : String) (notes : List WalletNote)
    → All (HasNoteId wallet) notes
    → All (IsNoteOf s wallet) (mark_spent (spent_of s wallet) notes)
unfolding mark_spent
mark_spent-IsNoteOf s wallet [] h = tt
mark_spent-IsNoteOf s wallet (note ∷ notes) (p, h) =
    let rest = mark_spent-IsNoteOf s wallet notes h in
    elim (Bool-cases (is_true (spent_of s wallet) note.note_id)) [
      | inl marked ↦ rw marked ((p, λ e. refl), rest)
      | inr unmarked ↦ rw unmarked ((p, λ e. absurd (cc (e, unmarked))), rest)
    ]

-- A scan that succeeds shows notes of the wallet that it is for.
pub scan_notes-IsNoteOf :
    (s : Service) (wallet asset : String) (include_spent : Bool) (limit : ℤ)
    (notes : List WalletNote)
    → scan_notes s wallet asset include_spent limit ≡ ok notes
    → All (IsNoteOf s (trim_space wallet)) notes
scan_notes-IsNoteOf s wallet asset include_spent limit notes h =
    let own = trim_space wallet in
    let all = fixture_notes own (trim_space asset) in
    let marked = mark_spent-IsNoteOf s own all (("01", refl), (("02", refl), (("03", refl), tt))) in
    subst (All (IsNoteOf s own)) (sym (scan_notes-take s wallet asset include_spent limit notes h))
      (take-All (IsNoteOf s own) (wanted limit) _
        (visible-All (IsNoteOf s own) include_spent _ marked))
