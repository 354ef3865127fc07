-- ===== src/Wallet/Service/Lifecycle.antt =====
-- A spend through its life: built, signed, submitted and read back.
use o2ul_portal.Common.{
  ◌+◌, ◌%◌, ◌^◌, ℕ, String, ◌≡◌, refl, ap, sym, ◌≢◌, List, arith, eq_iff, inl, inr, Result-cases,
  ok, trim_space, trim_space_idem, trim_space_of_NoSpaces, is_space_code, NoSpaces, NoSpaces-concat,
  NoSpaces-take_chars, concat, take_chars, is_empty, is_empty-eq, concat_not_empty,
  lookup-insert_self, subst,
}
use o2ul_portal.Wallet.Guard.{Guard, Assertion, SpendIntent, authorize}
use o2ul_portal.Wallet.Service.Payloads.{WalletSpendBuild, WalletSignedTransaction, Codec, IsJson}
use o2ul_portal.Wallet.Service.Notes.{WalletTransaction, Service}
use o2ul_portal.Wallet.Service.Transactions.{
  trimmed, check_spend, build_spend_transaction, Submission, unmarshal_for, sign_transaction,
  read_payload, transaction_of, prepare, record_transaction, submit_transaction,
  get_transaction_status,
}

module _ (c : Codec) where
  -- the signature and the transaction id that the code makes from a digest
  pub digest_text : String → ℕ → String → String
  digest_text prefix n payload = concat prefix (take_chars n (c.sha256_hex payload))

  module _ (law : IsJson c) where
    digest_text-trim :
        (prefix : String) (n : ℕ) (payload : String)
        → NoSpaces prefix
        → trim_space (digest_text prefix n payload) ≡ digest_text prefix n payload
    unfolding digest_text
    digest_text-trim prefix n payload h =
        trim_space_of_NoSpaces _
          (NoSpaces-concat prefix _ h (NoSpaces-take_chars n _ (law.hex_plain payload)))

    -- The payload that BuildSpendTransaction returns.
    pub built :
        (req : WalletSpendBuild) (unsigned : String)
        → build_spend_transaction c req ≡ ok unsigned
        → (trim_space req.wallet_id ≢ "") × (unsigned ≡ c.marshal_spend (trimmed req))
    unfolding build_spend_transaction check_spend
    built req unsigned h = (λ e. ground (arith, eq_iff (trim_space req.wallet_id) ""), ground arith)

    pub unmarshal_for-built :
        (req : WalletSpendBuild)
        → unmarshal_for c (trim_space req.wallet_id) (c.marshal_spend (trimmed req))
          ≡ ok (trimmed req)
    unfolding unmarshal_for
    unmarshal_for-built req = ground (
      arith,
      law.spend_round (trimmed req),
      trim_space_idem req.wallet_id,
      eq_iff (trim_space req.wallet_id) (trim_space req.wallet_id),
    )

    -- The payload that SignTransaction returns.
    pub signed_payload :
        (guard : Guard) (now wallet payload : String) (assertions : List Assertion)
        (signed : String)
        → sign_transaction c guard now wallet payload assertions ≡ ok signed
        → (payload ≢ "")
          × (signed
              ≡ c.marshal_signed (record {
                unsigned_tx = payload;
                signature = digest_text "sig-" 32 (concat payload (concat "|" (trim_space wallet)));
                signed_by = trim_space wallet;
                signed_at = now;
              }))
    unfolding sign_transaction digest_text
    signed_payload guard now wallet payload assertions signed h =
        elim (Result-cases (unmarshal_for c (trim_space wallet) payload)) [
          | inl (spend, decoded) ↦
              let intent : SpendIntent = record {
                wallet_id = trim_space wallet;
                amount = spend.amount;
                asset_id = spend.asset_id;
              } in
              elim (Result-cases (authorize guard intent assertions)) [
                | inl (tt, approved) ↦ (λ e. ground (arith, ap is_empty e), ground arith)
                | inr (x, refused) ↦ ground arith
              ]
          | inr (x, e) ↦ ground arith
        ]

    sig_not_empty : (p : String) → digest_text "sig-" 32 p ≢ ""
    unfolding digest_text
    sig_not_empty p e = concat_not_empty "sig-" (take_chars 32 (c.sha256_hex p)) refl e

    -- What a submission of a signed payload records.
    abbrev pub recorded : (now : String) (req : WalletSpendBuild) → WalletTransaction
    recorded now req =
        let unsigned = c.marshal_spend (trimmed req) in
        transaction_of c (trim_space req.wallet_id) now
          (record {
            payload = unsigned;
            signature =
                digest_text "sig-" 32 (concat unsigned (concat "|" (trim_space req.wallet_id)));
          })
          (trimmed req)

    read_payload-signed :
        (wallet : String) (signed : WalletSignedTransaction)
        → signed.unsigned_tx ≢ ""
        → signed.signature ≢ ""
        → trim_space signed.signature ≡ signed.signature
        → trim_space signed.signed_by ≡ wallet
        → read_payload c wallet (c.marshal_signed signed)
          ≡ ok (record { payload = signed.unsigned_tx; signature = signed.signature })
    unfolding read_payload
    read_payload-signed wallet signed full named plain owner = ground (
      arith,
      law.signed_round signed,
      is_empty-eq signed.unsigned_tx,
      full,
      named,
      eq_iff signed.signature "",
      eq_iff (trim_space signed.signed_by) wallet,
    )

    pub prepare-read :
        (now wallet payload : String) (submission : Submission) (spend : WalletSpendBuild)
        → trim_space wallet ≢ ""
        → payload ≢ ""
        → read_payload c (trim_space wallet) payload ≡ ok submission
        → unmarshal_for c (trim_space wallet) submission.payload ≡ ok spend
        → prepare c now wallet payload
          ≡ ok (transaction_of c (trim_space wallet) now submission spend)
    unfolding prepare
    prepare-read now wallet payload submission spend named full r u =
        ground (arith, is_empty-eq payload, named, full, eq_iff (trim_space wallet) "")

    prepare-signed :
        (guard : Guard) (signed_at now : String) (req : WalletSpendBuild)
        (assertions : List Assertion) (unsigned signed : String)
        → build_spend_transaction c req ≡ ok unsigned
        → sign_transaction c guard signed_at req.wallet_id unsigned assertions ≡ ok signed
        → prepare c now req.wallet_id signed ≡ ok (recorded now req)
    unfolding is_space_code
    prepare-signed guard signed_at now req assertions unsigned signed h k =
        let (named, u) = built req unsigned h in
        let (full, s) = signed_payload guard signed_at req.wallet_id unsigned assertions signed k in
        let signature =
          digest_text "sig-" 32 (concat unsigned (concat "|" (trim_space req.wallet_id))) in
        let sent : WalletSignedTransaction = record {
          unsigned_tx = unsigned;
          signature = signature;
          signed_by = trim_space req.wallet_id;
          signed_at = signed_at;
        } in
        let r =
          read_payload-signed (trim_space req.wallet_id) sent full (sig_not_empty _)
            (digest_text-trim "sig-" 32 _ (refl, (refl, (refl, (refl, tt)))))
            (trim_space_idem req.wallet_id) in
        let k =
          prepare-read now req.wallet_id (c.marshal_signed sent) _ (trimmed req) named
            (law.signed_not_empty sent) r
            (subst (λ p. unmarshal_for c (trim_space req.wallet_id) p ≡ ok (trimmed req)) (sym u)
              (unmarshal_for-built req)) in
        rw s cc

    status-record :
        (s : Service) (tx : WalletTransaction) (wallet : String)
        → trim_space wallet ≢ ""
        → tx.wallet_id ≡ trim_space wallet
        → tx.tx_id ≢ ""
        → trim_space tx.tx_id ≡ tx.tx_id
        → get_transaction_status (record_transaction tx s) wallet tx.tx_id ≡ ok tx
    unfolding get_transaction_status record_transaction
    status-record s tx wallet named owner full plain =
        let found = lookup-insert_self tx.tx_id tx s.transactions in
        rw plain (
          rw found (
            ground (
              arith,
              eq_iff (trim_space wallet) "",
              eq_iff tx.tx_id "",
              eq_iff tx.wallet_id (trim_space wallet),
              named,
              full,
            )))

    -- What a transaction of a spend that was submitted at this time says, written out.
    pub record Describes (now : String) (req : WalletSpendBuild) (tx : WalletTransaction)
        : Type 0 where
      pub wallet : tx.wallet_id ≡ trim_space req.wallet_id
      pub asset : tx.asset_id ≡ trim_space req.asset_id
      pub amount : tx.amount ≡ req.amount
      pub fee : tx.fee ≡ req.fee
      pub inputs : tx.input_notes ≡ req.input_notes
      pub outflow : tx.total_outflow ≡ (req.amount + req.fee) % 2 ^ 64
      pub submitted : tx.submitted_at ≡ now
      pub processing : tx.status ≡ "processing"

    -- The transaction of a built spend, with whatever signature it is submitted.
    pub transaction_of-Describes :
        (now signature : String) (req : WalletSpendBuild)
        → Describes now req (
            transaction_of c
              (trim_space req.wallet_id)
              now
              (record { payload = c.marshal_spend (trimmed req); signature = signature })
              (trimmed req))
    transaction_of-Describes now signature req = record {
      wallet = refl;
      asset = refl;
      amount = refl;
      fee = refl;
      inputs = refl;
      outflow = refl;
      submitted = refl;
      processing = refl;
    }

    -- The transaction of the submission, and what its status is afterwards.
    pub submit-recorded :
        (guard : Guard) (signed_at now : String) (req : WalletSpendBuild)
        (assertions : List Assertion) (unsigned signed : String) (s : Service)
        → build_spend_transaction c req ≡ ok unsigned
        → sign_transaction c guard signed_at req.wallet_id unsigned assertions ≡ ok signed
        → ((submit_transaction c s now req.wallet_id signed).0 ≡ ok (recorded now req))
          × (get_transaction_status
                (submit_transaction c s now req.wallet_id signed).1
                req.wallet_id
                (recorded now req).tx_id
              ≡ ok (recorded now req))
    unfolding submit_transaction is_space_code digest_text
    submit-recorded guard signed_at now req assertions unsigned signed s h k =
        let p = prepare-signed guard signed_at now req assertions unsigned signed h k in
        let (named, _) = built req unsigned h in
        let id = c.marshal_spend (trimmed req) in
        (
          ground arith,
          rw (p, submit_transaction)
              (status-record s (recorded now req) req.wallet_id named refl
                (concat_not_empty "tx-" (take_chars 24 (c.sha256_hex id)) refl)
                (digest_text-trim "tx-" 24 id (ground arith, (ground arith, (ground arith, tt))))),
        )

    -- The spend of a wallet that is built, signed with the guard's approval and submitted is
    -- accepted in every state. The transaction has the wallet and the asset of the request without
    -- the spaces around them, its amount, fee and input notes, amount and fee added as uint64, the
    -- time of the submission, the status `processing` and a signature; and asked for its status,
    -- the service gives that transaction back.
    pub build-sign-submit-status :
        (guard : Guard) (signed_at now : String) (req : WalletSpendBuild)
        (assertions : List Assertion) (unsigned signed : String) (s : Service)
        → build_spend_transaction c req ≡ ok unsigned
        → sign_transaction c guard signed_at req.wallet_id unsigned assertions ≡ ok signed
        → (tx : WalletTransaction) × ((submit_transaction c s now req.wallet_id signed).0 ≡ ok tx)
          × Describes now req tx
          × (tx.signature ≢ "")
          × (get_transaction_status
                (submit_transaction c s now req.wallet_id signed).1
                req.wallet_id
                tx.tx_id
              ≡ ok tx)
    build-sign-submit-status guard signed_at now req assertions unsigned signed s h k =
        let (sent, status) =
          submit-recorded guard signed_at now req assertions unsigned signed s h k in
        (recorded now req, sent, transaction_of-Describes now _ req, sig_not_empty _, status)
