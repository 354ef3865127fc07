-- ===== src/Wallet/Guard/Authorize.antt =====
-- What `Authorize` and `AuthorizeRecovery` accept.
use o2ul_portal.Common.{◌≡◌, ◌≢◌, ◌↔◌, false, List, arith, eq_iff, ok, fail_if-eq-ok, >>-eq-ok}
use o2ul_portal.Wallet.Guard.{
  Assertion, SpendIntent, Guard, approval, is_invalid_intent, authorize, authorize_recovery,
}

-- An intent that names a wallet and an asset and spends something.
pub record IsSpend (intent : SpendIntent) : Type 0 where
  pub wallet : intent.wallet_id ≢ ""
  pub asset : intent.asset_id ≢ ""
  pub amount : intent.amount ≢ 0

IsSpend-iff : (intent : SpendIntent) → (is_invalid_intent intent ≡ false) ↔ IsSpend intent
unfolding is_invalid_intent
IsSpend-iff intent = (
  λ h. record {
    wallet = λ e. ground (arith, eq_iff intent.wallet_id "");
    asset = λ e. ground (arith, eq_iff intent.asset_id "");
    amount = λ e. ground arith;
  },
  λ s.
      ground
        (arith, eq_iff intent.wallet_id "", eq_iff intent.asset_id "", s.wallet, s.asset, s.amount),
)

-- `AuthorizeRecovery` succeeds exactly if the intent is a spend and both sets of assertions, the
-- recovery ones and the replacement ones, are approved by themselves.
pub authorize_recovery_iff :
    (g : Guard) (intent : SpendIntent) (recovery replacement : List Assertion)
    → (authorize_recovery g intent recovery replacement ≡ ok tt) ↔ (
        IsSpend intent
        × (approval g intent recovery ≡ ok tt)
        × (approval g intent replacement ≡ ok tt))
unfolding authorize_recovery
authorize_recovery_iff g intent recovery replacement = (
  λ h.
      let (valid, both) = (fail_if-eq-ok _ _ _ tt).0 h in
      let (first, second) = (>>-eq-ok _ _ tt).0 both in
      ((IsSpend-iff intent).0 valid, first, second),
  λ (s, first, second).
      (fail_if-eq-ok _ _ _ tt).1 ((IsSpend-iff intent).1 s, (>>-eq-ok _ _ tt).1 (first, second)),
)

-- `Authorize` succeeds exactly if the intent is a spend and its assertions are approved.
pub authorize_iff :
    (g : Guard) (intent : SpendIntent) (given : List Assertion)
    → (authorize g intent given ≡ ok tt) ↔ (IsSpend intent × (approval g intent given ≡ ok tt))
unfolding authorize
authorize_iff g intent given = (
  λ h.
      let (valid, approved) = (fail_if-eq-ok _ _ _ tt).0 h in
      ((IsSpend-iff intent).0 valid, approved),
  λ (s, approved). (fail_if-eq-ok _ _ _ tt).1 ((IsSpend-iff intent).1 s, approved),
)
