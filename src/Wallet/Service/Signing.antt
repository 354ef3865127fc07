-- ===== src/Wallet/Service/Signing.antt =====
-- What SignTransaction signs.
use o2ul_portal.Common.{String, ◌≡◌, List, arith, eq_iff, inl, inr, Result-cases, ok, trim_space}
use o2ul_portal.Wallet.Guard.{Guard, Assertion, SpendIntent, authorize}
use o2ul_portal.Wallet.Service.Payloads.{WalletSpendBuild, Codec}
use o2ul_portal.Wallet.Service.Transactions.{unmarshal_for, sign_transaction}

module _ (c : Codec) where
  unmarshal_for-ok :
      (wallet payload : String) (spend : WalletSpendBuild)
      → unmarshal_for c wallet payload ≡ ok spend
      → (c.unmarshal_spend payload ≡ ok spend) × (trim_space spend.wallet_id ≡ wallet)
  unfolding unmarshal_for
  unmarshal_for-ok wallet payload spend h = elim (Result-cases (c.unmarshal_spend payload)) [
    | inl (found, e) ↦ (ground arith, ground (arith, eq_iff (trim_space found.wallet_id) wallet))
    | inr (x, e) ↦ ground arith
  ]

  -- SignTransaction signs nothing unapproved: if it returns a payload, the unsigned transaction
  -- decodes to a spend of that wallet, and the wallet guard authorizes that spend's amount and
  -- asset with the assertions that were given.
  pub sign_transaction-authorize :
      (guard : Guard) (now wallet payload : String) (assertions : List Assertion) (signed : String)
      → sign_transaction c guard now wallet payload assertions ≡ ok signed
      → (spend : WalletSpendBuild) × (c.unmarshal_spend payload ≡ ok spend)
        × (trim_space spend.wallet_id ≡ trim_space wallet)
        × (authorize guard
              (record {
                wallet_id = trim_space wallet;
                amount = spend.amount;
                asset_id = spend.asset_id;
              })
              assertions
            ≡ ok tt)
  unfolding sign_transaction
  sign_transaction-authorize guard now wallet payload assertions signed h =
      elim (Result-cases (unmarshal_for c (trim_space wallet) payload)) [
        | inl (spend, decoded) ↦
            let (parsed, owner) = unmarshal_for-ok (trim_space wallet) payload spend decoded in
            let intent : SpendIntent = record {
              wallet_id = trim_space wallet;
              amount = spend.amount;
              asset_id = spend.asset_id;
            } in
            elim (Result-cases (authorize guard intent assertions)) [
              | inl (tt, approved) ↦ (spend, parsed, owner, approved)
              | inr (x, refused) ↦ ground arith
            ]
        | inr (x, e) ↦ ground arith
      ]
