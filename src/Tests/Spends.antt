-- ===== src/Tests/Spends.antt =====
-- The wallet service at a codec that prints a spend as its asset, and reads it back.
use o2ul_portal.Common.{
  ◌+◌, ◌*◌, ◌-◌, ◌≤◌, ◌<◌, ◌^◌, ◌%◌, ◌≡◌, ◌≢◌, refl, ◌↔◌, String, [], ◌∷◌, arith, lookup, length,
  All, ok, trim_space, is_space_code,
}
use o2ul_portal.Wallet.Guard.{
  authorize, approval, count_approved, is_verified, is_invalid_intent, contains,
}
use o2ul_portal.Wallet.Service.Payloads.{WalletSpendBuild}
use o2ul_portal.Wallet.Service.Notes.{WalletTransaction, Service}
use o2ul_portal.Wallet.Service.Transactions.{
  new_service, trimmed, check_spend, build_spend_transaction, unmarshal_for, sign_transaction,
  submit_transaction, get_transaction_status,
}
use o2ul_portal.Wallet.Service.Spent.{IsSpent, Reach, submitted, start, next, status-IsSpent}
use o2ul_portal.Wallet.Service.Budget.{
  IsComplete, IsU64, build_spend_transaction_iff, build_spend_overdraft,
}
use o2ul_portal.Wallet.Service.Lifecycle.{
  recorded, Describes, submit-recorded, build-sign-submit-status,
}
use o2ul_portal.Tests.Wallet.{two_factors, both}
use o2ul_portal.Wallet.Service.Signing.{sign_transaction-authorize}
use o2ul_portal.Tests.Codec.{
  get_text, get_nat, get_many, get_spend, sample_codec, sample_codec-IsJson,
}

abbrev one_note : WalletSpendBuild
one_note = record {
  wallet_id = " w ";
  recipient = "r";
  asset_id = "o2ul";
  amount = 7;
  fee = 1;
  input_notes = "w-note-01" ∷ [];
}

-- amount plus fee is 2 ^ 64 + 8
abbrev overdraft : WalletSpendBuild
overdraft = record one_note { amount = 2 ^ 64 - 1; fee = 9 }

one_note-IsU64 : IsU64 one_note
one_note-IsU64 = record { amount = omega arith; fee = omega arith; inputs = omega arith }

overdraft-IsU64 : IsU64 overdraft
overdraft-IsU64 = record { amount = omega arith; fee = omega arith; inputs = omega arith }

overdraft-IsComplete : IsComplete overdraft
unfolding trim_space is_space_code
overdraft-IsComplete = record {
  wallet = λ e. cc;
  recipient = λ e. cc;
  asset = λ e. cc;
  amount = λ e. omega arith;
  inputs = λ e. cc;
}

build_spend_transaction_iff_example :
    (build_spend_transaction sample_codec one_note ≡ ok "payload") ↔ (
      IsComplete one_note
      × ((one_note.amount + one_note.fee) % 2 ^ 64 ≤ length one_note.input_notes * 16)
      × (sample_codec.marshal_spend (trimmed one_note) ≡ "payload"))
build_spend_transaction_iff_example =
    build_spend_transaction_iff sample_codec one_note one_note-IsU64 "payload"

build_spend_overdraft_example :
    (build_spend_transaction sample_codec overdraft
      ≡ ok (sample_codec.marshal_spend (trimmed overdraft)))
    × (length overdraft.input_notes * 16 < overdraft.amount + overdraft.fee)
build_spend_overdraft_example =
    build_spend_overdraft sample_codec overdraft overdraft-IsU64 overdraft-IsComplete (omega arith)
      (omega arith)

abbrev unsigned : String
unsigned = sample_codec.marshal_spend (trimmed one_note)

abbrev signed : String
signed =
    sample_codec.marshal_signed
      (record { unsigned_tx = unsigned; signature = "sig-0f"; signed_by = "w"; signed_at = "noon" })

built : build_spend_transaction sample_codec one_note ≡ ok unsigned
unfolding build_spend_transaction check_spend trim_space is_space_code
built = refl

signs : sign_transaction sample_codec two_factors "noon" " w " unsigned both ≡ ok signed
unfolding sign_transaction unmarshal_for authorize approval count_approved is_verified
    is_invalid_intent contains lookup trim_space is_space_code get_spend get_text get_nat get_many
signs = refl

sign_transaction-authorize_example :
    (spend : WalletSpendBuild) × (sample_codec.unmarshal_spend unsigned ≡ ok spend)
    × (trim_space spend.wallet_id ≡ trim_space " w ")
    × (authorize two_factors
          (record {
            wallet_id = trim_space " w ";
            amount = spend.amount;
            asset_id = spend.asset_id;
          })
          both
        ≡ ok tt)
sign_transaction-authorize_example =
    sign_transaction-authorize sample_codec two_factors "noon" " w " unsigned both signed signs

abbrev after : Service
after = (submit_transaction sample_codec new_service "later" " w " signed).1

build-sign-submit-status_example :
    (tx : WalletTransaction) × ((submit_transaction sample_codec new_service "later" " w " signed).0
      ≡ ok tx)
    × Describes sample_codec sample_codec-IsJson "later" one_note tx
    × (tx.signature ≢ "")
    × (get_transaction_status after " w " tx.tx_id ≡ ok tx)
build-sign-submit-status_example =
    build-sign-submit-status sample_codec sample_codec-IsJson two_factors "noon" "later" one_note
      both unsigned signed new_service built signs

after-Reach : Reach sample_codec after
after-Reach = next start (submitted new_service "later" " w " signed)

status-IsSpent_example :
    ((recorded sample_codec sample_codec-IsJson "later" one_note).tx_id
      ≡ trim_space (recorded sample_codec sample_codec-IsJson "later" one_note).tx_id)
    × ((recorded sample_codec sample_codec-IsJson "later" one_note).wallet_id ≡ trim_space " w ")
    × All
        (IsSpent after (trim_space " w "))
        (recorded sample_codec sample_codec-IsJson "later" one_note).input_notes
status-IsSpent_example =
    status-IsSpent sample_codec after " w "
      (recorded sample_codec sample_codec-IsJson "later" one_note).tx_id
      (recorded sample_codec sample_codec-IsJson "later" one_note) after-Reach
      (submit-recorded sample_codec sample_codec-IsJson two_factors "noon" "later" one_note both
        unsigned signed new_service built signs).1
