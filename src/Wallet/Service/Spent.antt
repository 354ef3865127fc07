-- ===== src/Wallet/Service/Spent.antt =====
-- The record of submissions: every recorded transaction's input notes are spent for its wallet.
use o2ul_portal.Common.{
  String, Bool, true, ◌≡◌, some, List, [], ◌∷◌, arith, eq_iff, ◌==◌, inl, inr, Bool-cases,
  Option-cases, if◌then◌else◌, Map, lookup, insert, lookup-insert, lookup-nil, All, All-mono, ok,
  Result-cases, trim_space, subst,
}
use o2ul_portal.Wallet.Service.Payloads.{Codec}
use o2ul_portal.Wallet.Service.Notes.{WalletTransaction, Service, spent_of, is_true}
use o2ul_portal.Wallet.Service.Transactions.{
  new_service, mark_inputs, record_transaction, prepare, submit_transaction, get_transaction_status,
}

-- `s.spentNotes[walletID][noteID]`
abbrev pub IsSpent : Service → String → String → Type 0
IsSpent s wallet note = is_true (spent_of s wallet) note ≡ true

mark_inputs-keeps :
    (inputs : List String) (m : Map Bool) (note : String)
    → is_true m note ≡ true
    → is_true (mark_inputs inputs m) note ≡ true
unfolding mark_inputs
mark_inputs-keeps [] m note h = h
mark_inputs-keeps (i ∷ inputs) m note h =
    mark_inputs-keeps inputs (insert i true m) note (ground (arith, lookup-insert i note true m))

mark_inputs-marks :
    (inputs : List String) (m : Map Bool)
    → All (λ note. is_true (mark_inputs inputs m) note ≡ true) inputs
unfolding mark_inputs
mark_inputs-marks [] m = tt
mark_inputs-marks (i ∷ inputs) m = (
  mark_inputs-keeps inputs (insert i true m) i
      (ground (arith, lookup-insert i i true m, eq_iff i i)),
  mark_inputs-marks inputs (insert i true m),
)

pub spent_of-record :
    (tx : WalletTransaction) (s : Service) (wallet : String)
    → spent_of (record_transaction tx s) wallet ≡ (
        if tx.wallet_id == wallet
        then mark_inputs tx.input_notes (spent_of s tx.wallet_id)
        else spent_of s wallet)
unfolding spent_of record_transaction
spent_of-record tx s wallet = ground (
  arith,
  lookup-insert tx.wallet_id wallet (mark_inputs tx.input_notes (spent_of s tx.wallet_id))
      s.spent_notes,
)

-- A spent note stays spent, for every wallet.
pub record_transaction-keeps :
    (tx : WalletTransaction) (s : Service) (wallet note : String)
    → IsSpent s wallet note
    → IsSpent (record_transaction tx s) wallet note
record_transaction-keeps tx s wallet note h = ground (
  arith,
  spent_of-record tx s wallet,
  eq_iff tx.wallet_id wallet,
  mark_inputs-keeps tx.input_notes (spent_of s tx.wallet_id) note,
)

pub record_transaction-marks :
    (tx : WalletTransaction) (s : Service)
    → All (IsSpent (record_transaction tx s) tx.wallet_id) tx.input_notes
record_transaction-marks tx s =
    subst (λ m. All (λ note. is_true m note ≡ true) tx.input_notes)
      (ground (arith, spent_of-record tx s tx.wallet_id, eq_iff tx.wallet_id tx.wallet_id))
      (mark_inputs-marks tx.input_notes (spent_of s tx.wallet_id))

-- What is recorded under an id carries that id, and its input notes are spent for its wallet.
pub record IsRecorded (s : Service) : Type 0 where
  pub named :
      (id : String) (tx : WalletTransaction) → lookup id s.transactions ≡ some tx → tx.tx_id ≡ id
  pub spent :
      (id : String) (tx : WalletTransaction)
      → lookup id s.transactions ≡ some tx
      → All (IsSpent s tx.wallet_id) tx.input_notes

record_transaction-IsRecorded :
    (tx : WalletTransaction) (s : Service) → IsRecorded s → IsRecorded (record_transaction tx s)
unfolding record_transaction
record_transaction-IsRecorded tx s v = record {
  named = λ id t h.
      ground (arith, lookup-insert tx.tx_id id tx s.transactions, eq_iff tx.tx_id id, v.named id t);
  spent = λ id t h. elim (Bool-cases (tx.tx_id == id)) [
    | inl e ↦
        let same : tx ≡ t = ground (arith, lookup-insert tx.tx_id id tx s.transactions) in
        subst (λ u. All (IsSpent (record_transaction tx s) u.wallet_id) u.input_notes) same
          (record_transaction-marks tx s)
    | inr e ↦
        let old : lookup id s.transactions ≡ some t =
          ground (arith, lookup-insert tx.tx_id id tx s.transactions) in
        All-mono (λ n k. record_transaction-keeps tx s t.wallet_id n k) t.input_notes
          (v.spent id t old)
  ];
}

submit-IsRecorded :
    (c : Codec) (s : Service) (now wallet payload : String)
    → IsRecorded s
    → IsRecorded (submit_transaction c s now wallet payload).1
unfolding submit_transaction
submit-IsRecorded c s now wallet payload v = elim (Result-cases (prepare c now wallet payload)) [
  | inl (tx, e) ↦ rw (e, submit_transaction) (record_transaction-IsRecorded tx s v)
  | inr (x, e) ↦ rw (e, submit_transaction) v
]

-- A submission by anybody at any time.
pub data Step (c : Codec) : Service → Service → Type 0 where
  submitted :
      (s : Service) (now wallet payload : String)
      → Step c s (submit_transaction c s now wallet payload).1

pub data Reach (c : Codec) : Service → Type 0 where
  start : Reach c new_service
  next : {s t : Service} → Reach c s → Step c s t → Reach c t

new_service-IsRecorded : IsRecorded new_service
unfolding new_service
new_service-IsRecorded = record {
  named = λ id tx h. absurd (lookup-nil id tx h);
  spent = λ id tx h. absurd (lookup-nil id tx h);
}

Step-IsRecorded : {c : Codec} {s t : Service} → Step c s t → IsRecorded s → IsRecorded t
Step-IsRecorded {c} (submitted s now wallet payload) v = submit-IsRecorded c s now wallet payload v

pub Reach-IsRecorded : {c : Codec} {s : Service} → Reach c s → IsRecorded s
Reach-IsRecorded start = new_service-IsRecorded
Reach-IsRecorded (next r st) = Step-IsRecorded st (Reach-IsRecorded r)

pub status_found :
    (s : Service) (wallet id : String) (tx : WalletTransaction)
    → get_transaction_status s wallet id ≡ ok tx
    → (lookup (trim_space id) s.transactions ≡ some tx) × (tx.wallet_id ≡ trim_space wallet)
unfolding get_transaction_status
status_found s wallet id tx h = elim (Option-cases (lookup (trim_space id) s.transactions)) [
  | inl e ↦ ground arith
  | inr (found, e) ↦ (ground arith, ground (arith, eq_iff found.wallet_id (trim_space wallet)))
]

-- In every state that submissions reach, GetTransactionStatus only gives out the transaction that
-- was asked for, to the wallet that submitted it, and all its input notes are spent for that
-- wallet.
pub status-IsSpent :
    (c : Codec) (s : Service) (wallet id : String) (tx : WalletTransaction)
    → Reach c s
    → get_transaction_status s wallet id ≡ ok tx
    → (tx.tx_id ≡ trim_space id)
      × (tx.wallet_id ≡ trim_space wallet)
      × All (IsSpent s (trim_space wallet)) tx.input_notes
status-IsSpent c s wallet id tx r h =
    let (found, owner) = status_found s wallet id tx h in
    let v = Reach-IsRecorded r in
    (
      v.named (trim_space id) tx found,
      owner,
      subst (λ w. All (IsSpent s w) tx.input_notes) owner (v.spent (trim_space id) tx found),
    )

submit-keeps :
    (c : Codec) (s : Service) (now by payload wallet note : String)
    → IsSpent s wallet note
    → IsSpent (submit_transaction c s now by payload).1 wallet note
unfolding submit_transaction
submit-keeps c s now by payload wallet note h = elim (Result-cases (prepare c now by payload)) [
  | inl (tx, e) ↦ rw (e, submit_transaction) (record_transaction-keeps tx s wallet note h)
  | inr (x, e) ↦ rw (e, submit_transaction) h
]

-- No submission makes a spent note available again.
pub Step-keeps :
    (c : Codec) (s t : Service) (wallet note : String)
    → Step c s t
    → IsSpent s wallet note
    → IsSpent t wallet note
Step-keeps c _ _ wallet note (submitted s now by payload) h =
    submit-keeps c s now by payload wallet note h

-- The verdict on a submission and the transaction that it returns do not depend on what was spent
-- before: a transaction is accepted again, or with input notes that are spent already.
pub submit_ignores_spent :
    (c : Codec) (s t : Service) (now wallet payload : String)
    → (submit_transaction c s now wallet payload).0 ≡ (submit_transaction c t now wallet payload).0
unfolding submit_transaction
submit_ignores_spent c s t now wallet payload = ground arith
