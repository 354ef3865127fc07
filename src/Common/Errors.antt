-- ===== src/Common/Errors.antt =====
-- Go's `error` values and `(value, error)` results. A sentinel is compared by identity, so
-- `errors.New("not found")` is another error than `application.ErrNotFound`.
use Prim.Native.String.{String}
use mathlib.Core.Path.{◌≡◌, refl}
use mathlib.Core.Logic.{◌⊎◌, inl, inr, ◌↔◌}
use mathlib.Core.Bool.{Bool, true, false}

pub data Error : Type 0 where
  -- application.ErrNotFound
  not_found : Error
  -- lightclient.ErrHeaderChainBroken, wrapped
  header_chain_broken : Error
  -- walletguard.ErrInsufficientFactors
  insufficient_factors : Error
  -- proverclient.ErrNoProofBackend
  no_proof_backend : Error
  -- proverclient.ErrUnpairedDevice
  unpaired_device : Error
  -- errors.New, fmt.Errorf, and errors that come from outside
  message : String → Error
  -- not an error value: a run-time panic, which ends the call without a result
  panicked : String → Error
  -- `fmt.Errorf(text + ": %w", err)`
  wrapped : String → Error → Error

pub data Result {ℓ} (A : Type ℓ) : Type ℓ where
  err : Error → Result A
  ok : A → Result A

-- `if err != nil { return ..., err }` after a call, with or without its value
infixl 5 ◌>>=◌ ◌>>◌
abbrev pub ◌>>=◌ {ℓ κ} : {V : Type ℓ} {W : Type κ} → Result V → (V → Result W) → Result W
err failure >>= next = err failure
ok value >>= next = next value

abbrev pub ◌>>◌ {ℓ} : {W : Type ℓ} → Result (Unit {0}) → Result W → Result W
check >> next = check >>= λ _. next

-- `if b { return ..., errors.New(text) }`
abbrev pub fail_if : Bool → Error → Result (Unit {0})
fail_if true e = err e
fail_if false e = ok tt

-- `v, _ := call()`: the zero value stands for a failed call.
abbrev pub value_or {ℓ} : {A : Type ℓ} → A → Result A → A
value_or zero_value (ok a) = a
value_or zero_value (err e) = zero_value

-- `errors.Is(err, ErrNotFound)`
abbrev pub is_not_found : Error → Bool
is_not_found not_found = true
is_not_found (wrapped text cause) = is_not_found cause
is_not_found _ = false

pub Result-cases {ℓ} :
    {A : Type ℓ} (r : Result A) → ((v : A) × (r ≡ ok v)) ⊎ ((failure : Error) × (r ≡ err failure))
Result-cases (ok a) = inl (a, refl)
Result-cases (err e) = inr (e, refl)

-- A chain of checks succeeds exactly if each of them does.
pub fail_if-eq-ok {ℓ} :
    {B : Type ℓ} (b : Bool) (e : Error) (k : Result B) (v : B)
    → ((fail_if b e >> k) ≡ ok v) ↔ ((b ≡ false) × (k ≡ ok v))
fail_if-eq-ok true e k v = (λ h. cc h, λ h. cc (h.0))
fail_if-eq-ok false e k v = (λ h. (refl, h), λ h. h.1)

pub >>-eq-ok {ℓ} :
    {B : Type ℓ} (m : Result (Unit {0})) (k : Result B) (v : B)
    → ((m >> k) ≡ ok v) ↔ ((m ≡ ok tt) × (k ≡ ok v))
>>-eq-ok (ok u) k v = (λ h. (refl, h), λ h. h.1)
>>-eq-ok (err e) k v = (λ h. cc h, λ h. cc (h.0))

pub >>=-eq-ok {ℓ κ} :
    {V : Type ℓ} {W : Type κ} (call : Result V) (next : V → Result W) {w : W}
    → (call >>= next) ≡ ok w
    → (v : V) × (call ≡ ok v) × (next v ≡ ok w)
>>=-eq-ok (err failure) next h = cc
>>=-eq-ok (ok v) next h = (v, refl, h)
