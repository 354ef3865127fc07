-- ===== src/Wallet/Guard.antt =====
-- Spend authorisation by distinct factors (pkg/walletguard/guard.go).
pub mod Factors
pub mod Approval
pub mod Authorize
use o2ul_portal.Common.{
  ℕ, ◌+◌, String, Bool, true, false, ◌||◌, none, some, List, [], ◌∷◌, ◌==◌, nat_eq, is_empty,
  if◌then◌else◌, Map, lookup, Result, ok, err, Error, message, insufficient_factors, fail_if, ◌>>◌,
}
use o2ul_portal.Common.Int.{ℤ, pos, ltb_ℤ}

abbrev pub Factor : Type 0
Factor = String

abbrev pub factor_device : Factor
factor_device = "device"

abbrev pub factor_passkey : Factor
factor_passkey = "passkey"

abbrev pub factor_guardian : Factor
factor_guardian = "guardian"

pub record Assertion : Type 0 where
  pub factor : Factor
  pub payload : String

-- `amount` is a uint64.
pub record SpendIntent : Type 0 where
  pub wallet_id : String
  pub amount : ℕ
  pub asset_id : String

abbrev pub Verifier : Type 0
Verifier = SpendIntent → Assertion → Bool

pub record Guard : Type 0 where
  pub threshold : ℤ
  pub verifiers : Map Verifier

unfoldable pub new_guard : ℤ → Map Verifier → Result Guard
new_guard threshold verifiers =
    if ltb_ℤ threshold (pos 1)
    then err (message "threshold must be >= 1")
    else ok (record { threshold = threshold; verifiers = verifiers })

unfoldable pub contains : Factor → List Factor → Bool
contains f [] = false
contains f (g ∷ gs) = g == f || contains f gs

-- The verifier of the assertion's factor exists and accepts it.
unfoldable pub is_verified : Guard → SpendIntent → Assertion → Bool
is_verified g intent assertion = elim (lookup assertion.factor g.verifiers) [
  | none ↦ false
  | some verify ↦ verify intent assertion
]

-- The loop of `approval`: the factors seen so far and the number approved.
unfoldable pub count_approved : Guard → SpendIntent → List Factor → ℕ → List Assertion → ℕ
count_approved g intent seen approved [] = approved
count_approved g intent seen approved (a ∷ assertions) =
    let skipped = count_approved g intent seen approved assertions in
    let counted =
      count_approved g intent (a.factor ∷ seen)
        (if is_verified g intent a then approved + 1 else approved) assertions in
    if contains a.factor seen then skipped else counted

unfoldable pub approval : Guard → SpendIntent → List Assertion → Result (Unit {0})
approval g intent assertions =
    if ltb_ℤ (pos (count_approved g intent [] 0 assertions)) g.threshold
    then err insufficient_factors
    else ok tt

unfoldable pub is_invalid_intent : SpendIntent → Bool
is_invalid_intent intent = intent.wallet_id == "" || intent.asset_id == "" || nat_eq intent.amount 0

unfoldable pub authorize : Guard → SpendIntent → List Assertion → Result (Unit {0})
authorize g intent assertions = do
  fail_if (is_invalid_intent intent) (message "invalid spend intent")
  approval g intent assertions

unfoldable pub authorize_recovery :
    Guard → SpendIntent → List Assertion → List Assertion → Result (Unit {0})
authorize_recovery g intent recovery replacement = do
  fail_if (is_invalid_intent intent) (message "invalid spend intent")
  approval g intent recovery
  approval g intent replacement
