-- ===== src/Wallet/Service/Transactions.antt =====
-- Building, signing, submitting and reading back a spend transaction.
use o2ul_portal.Common.{
  ℕ, ◌+◌, ◌*◌, ◌%◌, ◌^◌, String, Bool, true, not, none, some, List, [], ◌∷◌, ◌==◌, nat_eq, ltb,
  is_nil, is_empty, concat, take_chars, length, Map, lookup, insert, trim_space, if◌then◌else◌,
  Result, ok, err, message, fail_if, ◌>>◌, ◌>>=◌,
}
use o2ul_portal.Wallet.Guard.{Guard, Assertion, authorize}
use package.o2ul_portal.Wallet.Service.Payloads.{WalletSpendBuild, Codec}
use package.o2ul_portal.Wallet.Service.Notes.{WalletTransaction, Service, spent_of}

unfoldable pub new_service : Service
new_service = record { transactions = []; spent_notes = [] }

abbrev pub u64 : ℕ → ℕ
u64 n = n % 2 ^ 64

abbrev pub trimmed : WalletSpendBuild → WalletSpendBuild
trimmed req = record req {
  wallet_id = trim_space req.wallet_id;
  recipient = trim_space req.recipient;
  asset_id = trim_space req.asset_id;
}

unfoldable pub check_spend : WalletSpendBuild → Result (Unit {0})
check_spend req = do
  fail_if (req.wallet_id == "") (message "wallet id is required")
  fail_if (req.recipient == "") (message "recipient is required")
  fail_if (req.asset_id == "") (message "asset id is required")
  fail_if (nat_eq req.amount 0) (message "amount must be greater than zero")
  fail_if (is_nil req.input_notes) (message "at least one input note is required")
  fail_if (ltb (u64 (u64 (length req.input_notes) * 16)) (u64 (req.amount + req.fee)))
      (message "insufficient note input budget for amount+fee")

-- the state of a submission before the lock is taken
pub record Submission : Type 0 where
  pub payload : String
  pub signature : String

module _ (c : Codec) where
  unfoldable pub build_spend_transaction : WalletSpendBuild → Result String
  build_spend_transaction req = check_spend (trimmed req) >> ok (c.marshal_spend (trimmed req))

  unfoldable pub unmarshal_for : String → String → Result WalletSpendBuild
  unmarshal_for wallet payload = elim (c.unmarshal_spend payload) [
    | err e ↦ err (message "invalid unsigned transaction payload")
    | ok spend ↦
        fail_if (not (trim_space spend.wallet_id == wallet))
          (message "wallet id mismatch in unsigned transaction")
        >> ok spend
  ]

  unfoldable pub sign_transaction :
      Guard → String → String → String → List Assertion → Result String
  sign_transaction guard now wallet_id unsigned_tx assertions =
      let wallet = trim_space wallet_id in
      do
        fail_if (wallet == "") (message "wallet id is required")
        fail_if (is_empty unsigned_tx) (message "unsigned transaction is required")
        spend ← unmarshal_for wallet unsigned_tx
        authorize guard
            (record { wallet_id = wallet; amount = spend.amount; asset_id = spend.asset_id })
            assertions
        ok (
            c.marshal_signed (record {
              unsigned_tx = unsigned_tx;
              signature =
                  concat "sig-"
                    (take_chars 32 (c.sha256_hex (concat unsigned_tx (concat "|" wallet))));
              signed_by = wallet;
              signed_at = now;
            }))

  -- A payload is a signed transaction if it parses as one that holds an unsigned transaction.
  unfoldable pub read_payload : String → String → Result Submission
  read_payload wallet unsigned_tx =
      let plain = ok (record { payload = unsigned_tx; signature = "" }) in
      elim (c.unmarshal_signed unsigned_tx) [
        | err e ↦ plain
        | ok signed ↦
            if is_empty signed.unsigned_tx
            then plain
            else fail_if (trim_space signed.signature == "")
                (message "signed transaction is missing signature")
              >> (fail_if (not (trim_space signed.signed_by == wallet))
                    (message "signed transaction wallet mismatch")
                  >> ok (record {
                    payload = signed.unsigned_tx;
                    signature = trim_space signed.signature;
                  }))
      ]

  abbrev pub tx_id_of : String → String
  tx_id_of payload = concat "tx-" (take_chars 24 (c.sha256_hex payload))

  abbrev pub transaction_of : String → String → Submission → WalletSpendBuild → WalletTransaction
  transaction_of wallet now submission spend = record {
    tx_id = tx_id_of submission.payload;
    wallet_id = wallet;
    asset_id = spend.asset_id;
    amount = spend.amount;
    fee = spend.fee;
    input_notes = spend.input_notes;
    status = "processing";
    submitted_at = now;
    total_outflow = u64 (spend.amount + spend.fee);
    signature = submission.signature;
  }

  -- everything before the lock: the transaction that is to be recorded
  unfoldable pub prepare : String → String → String → Result WalletTransaction
  prepare now wallet_id unsigned_tx =
      let wallet = trim_space wallet_id in
      do
        fail_if (wallet == "") (message "wallet id is required")
        fail_if (is_empty unsigned_tx) (message "transaction payload is required")
        submission ← read_payload wallet unsigned_tx
        spend ← unmarshal_for wallet submission.payload
        ok (transaction_of wallet now submission spend)

-- the loop that marks the input notes
unfoldable pub mark_inputs : List String → Map Bool → Map Bool
mark_inputs [] notes = notes
mark_inputs (note ∷ inputs) notes = mark_inputs inputs (insert note true notes)

-- what happens under the lock
unfoldable pub record_transaction : WalletTransaction → Service → Service
record_transaction tx s = record {
  transactions = insert tx.tx_id tx s.transactions;
  spent_notes =
      insert tx.wallet_id (mark_inputs tx.input_notes (spent_of s tx.wallet_id)) s.spent_notes;
}

unfoldable pub submit_transaction :
    Codec → Service → String → String → String → Result WalletTransaction × Service
submit_transaction c s now wallet_id unsigned_tx = elim (prepare c now wallet_id unsigned_tx) [
  | err e ↦ (err e, s)
  | ok tx ↦ (ok tx, record_transaction tx s)
]

unfoldable pub get_transaction_status : Service → String → String → Result WalletTransaction
get_transaction_status s wallet_id tx_id =
    let wallet = trim_space wallet_id in
    let id = trim_space tx_id in
    fail_if (wallet == "") (message "wallet id is required")
    >> (fail_if (id == "") (message "transaction id is required")
        >> elim (lookup id s.transactions) [
          | none ↦ err (message "transaction not found")
          | some tx ↦
              fail_if (not (tx.wallet_id == wallet))
                (message "transaction does not belong to wallet")
              >> ok tx
        ])
