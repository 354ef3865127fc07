-- ===== src/Wallet/Service/Owner.antt =====
-- What a submission does to the wallets.
use o2ul_portal.Common.{
  String, ◌≡◌, ◌≢◌, arith, eq_iff, inl, inr, Result-cases, ok, err, Error, trim_space,
}
use o2ul_portal.Wallet.Service.Payloads.{Codec}
use o2ul_portal.Wallet.Service.Notes.{WalletTransaction, Service, spent_of}
use o2ul_portal.Wallet.Service.Transactions.{
  read_payload, unmarshal_for, prepare, submit_transaction,
}
use o2ul_portal.Wallet.Service.Spent.{spent_of-record}

module _ (c : Codec) where
  prepare_owner :
      (now wallet payload : String) (found : WalletTransaction)
      → prepare c now wallet payload ≡ ok found
      → found.wallet_id ≡ trim_space wallet
  unfolding prepare
  prepare_owner now wallet payload found h =
      elim (Result-cases (read_payload c (trim_space wallet) payload)) [
        | inr (x, k) ↦ ground arith
        | inl (submission, k) ↦
            elim (Result-cases (unmarshal_for c (trim_space wallet) submission.payload)) [
              | inr (x, u) ↦ ground arith
              | inl (spend, u) ↦ ground arith
            ]
      ]

  pub submit-kept :
      (now wallet payload : String) (s : Service) (e : Error)
      → (submit_transaction c s now wallet payload).0 ≡ err e
      → (submit_transaction c s now wallet payload).1 ≡ s
  unfolding submit_transaction
  submit-kept now wallet payload s e h = elim (Result-cases (prepare c now wallet payload)) [
    | inr (x, k) ↦ ground arith
    | inl (f, k) ↦ ground arith
  ]

  pub submit-owner :
      (now wallet payload : String) (s : Service) (found : WalletTransaction)
      → (submit_transaction c s now wallet payload).0 ≡ ok found
      → found.wallet_id ≡ trim_space wallet
  unfolding submit_transaction
  submit-owner now wallet payload s found h = elim (Result-cases (prepare c now wallet payload)) [
    | inr (x, k) ↦ ground arith
    | inl (f, k) ↦ prepare_owner now wallet payload found (ground arith)
  ]

  pub submit-others :
      (now wallet payload : String) (s : Service) (w : String)
      → w ≢ trim_space wallet
      → spent_of (submit_transaction c s now wallet payload).1 w ≡ spent_of s w
  unfolding submit_transaction
  submit-others now wallet payload s w ne = elim (Result-cases (prepare c now wallet payload)) [
    | inr (e, h) ↦ ground arith
    | inl (found, h) ↦
        let owner : found.wallet_id ≡ trim_space wallet =
          prepare_owner now wallet payload found h in
        ground (arith, owner, spent_of-record found s w, eq_iff found.wallet_id w)
  ]
