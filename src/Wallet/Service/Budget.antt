-- ===== src/Wallet/Service/Budget.antt =====
-- The note budget of `BuildSpendTransaction`.
use o2ul_portal.Common.{
  ℕ, ◌+◌, ◌-◌, ◌*◌, ◌%◌, ◌^◌, ◌≤◌, ◌<◌, ◌≡◌, refl, ap, ◌≢◌, ◌↔◌, String, [], arith, eq_iff, length,
  trim_space, ok, >>-eq-ok,
}
use o2ul_portal.Wallet.Service.Payloads.{WalletSpendBuild, Codec}
use o2ul_portal.Wallet.Service.Transactions.{u64, trimmed, check_spend, build_spend_transaction}

-- The fields that a spend must have.
pub record IsComplete (req : WalletSpendBuild) : Type 0 where
  pub wallet : trim_space req.wallet_id ≢ ""
  pub recipient : trim_space req.recipient ≢ ""
  pub asset : trim_space req.asset_id ≢ ""
  pub amount : req.amount ≢ 0
  pub inputs : req.input_notes ≢ []

-- The values that Go's types allow.
pub record IsU64 (req : WalletSpendBuild) : Type 0 where
  pub amount : req.amount < 2 ^ 64
  pub fee : req.fee < 2 ^ 64
  pub inputs : length req.input_notes < 2 ^ 60

-- the budget as it is computed, for a number of notes that memory can hold
budget_plain : (n : ℕ) → n < 2 ^ 60 → u64 (u64 n * 16) ≡ n * 16
budget_plain n h = omega arith

-- What the checks of BuildSpendTransaction come to: the sum of amount and fee is that of uint64.
check_spend_sound :
    (req : WalletSpendBuild)
    → IsU64 req
    → check_spend (trimmed req) ≡ ok tt
    → IsComplete req × ((req.amount + req.fee) % 2 ^ 64 ≤ length req.input_notes * 16)
unfolding check_spend
check_spend_sound req small h = (
  record {
    wallet = λ p. ground (arith, eq_iff (trim_space req.wallet_id) "");
    recipient = λ p. ground (arith, eq_iff (trim_space req.recipient) "");
    asset = λ p. ground (arith, eq_iff (trim_space req.asset_id) "");
    amount = λ p. ground arith;
    inputs = λ p. ground arith;
  },
  ground (arith, budget_plain (length req.input_notes) small.inputs),
)

check_spend_complete :
    (req : WalletSpendBuild)
    → IsU64 req
    → IsComplete req
    → (req.amount + req.fee) % 2 ^ 64 ≤ length req.input_notes * 16
    → check_spend (trimmed req) ≡ ok tt
unfolding check_spend
check_spend_complete req small k le = ground (
  arith,
  eq_iff (trim_space req.wallet_id) "",
  eq_iff (trim_space req.recipient) "",
  eq_iff (trim_space req.asset_id) "",
  k.wallet,
  k.recipient,
  k.asset,
  k.amount,
  k.inputs,
  budget_plain (length req.input_notes) small.inputs,
)

module _ (c : Codec) (req : WalletSpendBuild) (small : IsU64 req) where
  -- BuildSpendTransaction returns the encoding of the trimmed request exactly if its fields are
  -- complete and amount plus fee, with the wrap-around of uint64, fit the budget of 16 for each
  -- input note.
  pub build_spend_transaction_iff :
      (payload : String)
      → (build_spend_transaction c req ≡ ok payload) ↔ (
          IsComplete req
          × ((req.amount + req.fee) % 2 ^ 64 ≤ length req.input_notes * 16)
          × (c.marshal_spend (trimmed req) ≡ payload))
  unfolding build_spend_transaction
  build_spend_transaction_iff payload = (
    λ h.
        let (checked, e) =
          (>>-eq-ok (check_spend (trimmed req)) (ok (c.marshal_spend (trimmed req))) payload).0 h in
        let (k, le) = check_spend_sound req small checked in (k, le, cc e),
    λ (k, le, e).
        (>>-eq-ok (check_spend (trimmed req)) (ok (c.marshal_spend (trimmed req))) payload).1
          (check_spend_complete req small k le, ap ok e),
  )

  -- The budget check does not hold back a spend whose amount plus fee passes 2 ^ 64: such a
  -- request is built, though it spends more than the budget of its notes, as soon as the
  -- remainder fits.
  pub build_spend_overdraft :
      IsComplete req
      → 2 ^ 64 ≤ req.amount + req.fee
      → req.amount + req.fee - 2 ^ 64 ≤ length req.input_notes * 16
      → (build_spend_transaction c req ≡ ok (c.marshal_spend (trimmed req)))
        × (length req.input_notes * 16 < req.amount + req.fee)
  build_spend_overdraft k wraps le = (
    (build_spend_transaction_iff (c.marshal_spend (trimmed req))).1
        (k, omega (arith, small.amount, small.fee), refl),
    omega (arith, small.inputs),
  )
