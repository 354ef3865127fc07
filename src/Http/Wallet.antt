-- ===== src/Http/Wallet.antt =====
-- `O2ULWalletHandler` (internal/infrastructure/http/handlers/o2ul_wallet_handler.go) with its routes
-- behind the middleware. A byte slice of a request is the text that its base64 encodes. The loops
-- that copy the assertions of a request copy them field by field, and are left out.
pub mod Owner
pub mod Proving
pub mod Unsigned
use o2ul_portal.Common.{
  ℕ, String, Bool, true, false, not, Option, none, some, List, ◌+◌, ◌==◌, length, trim_space,
  if◌then◌else◌, Result, ok, err, Error, insufficient_factors, panicked, wrapped,
}
use o2ul_portal.Common.Int.{ℤ}
use o2ul_portal.Wallet.Guard.{Guard, Assertion, SpendIntent}
use o2ul_portal.Wallet.LightClient.{Memory, Header}
use o2ul_portal.Wallet.Prover.{Bytes, Mode, Client, Request}
use o2ul_portal.Wallet.Service.Payloads.{Codec, WalletSpendBuild}
use o2ul_portal.Wallet.Service.Notes
use o2ul_portal.Wallet.Service.Notes.{WalletNote, WalletTransaction, Service}
use o2ul_portal.Wallet.Service.Transactions
use o2ul_portal.Wallet.Service.Transactions.{u64}
use o2ul_portal.Wallet.Service.Prove
use o2ul_portal.Http.{Response, failed, json, refuse, TokenClaims, Claims}
use o2ul_portal.Http.Middleware.{Handler, require_auth}

pub record SpendProveReq : Type 0 where
  pub header_start : ℕ
  pub header_end : ℕ
  pub wallet_id : String
  pub amount : ℕ
  pub asset_id : String
  pub mode : Mode
  pub circuit_id : String
  pub witness : Bytes
  pub paired_id : String
  pub assertions : List Assertion

pub record ScanNotesReq : Type 0 where
  pub wallet_id : String
  pub asset_id : String
  pub include_spent : Bool
  pub limit : ℤ

pub record BuildTxReq : Type 0 where
  pub wallet_id : String
  pub recipient : String
  pub asset_id : String
  pub amount : ℕ
  pub fee : ℕ
  pub input_notes : List String

pub record SignTxReq : Type 0 where
  pub wallet_id : String
  pub unsigned_tx : String
  pub assertions : List Assertion

pub record SubmitTxReq : Type 0 where
  pub wallet_id : String
  pub unsigned_tx : String

pub record TxStatusReq : Type 0 where
  pub wallet_id : String
  pub tx_id : String

-- What an answer holds besides the wallet: `proof`, `notes`, `signedTx`, `tx`, or `unsignedTx` with
-- `inputCount` and `totalOutflow`.
pub data WalletPayload : Type 0 where
  proof : Bytes → WalletPayload
  notes : List WalletNote → WalletPayload
  unsigned_tx : String → ℕ → ℕ → WalletPayload
  signed_tx : String → WalletPayload
  tx : WalletTransaction → WalletPayload

pub record WalletAnswer : Type 0 where
  pub wallet_id : String
  pub payload : WalletPayload

-- the wallet that a request names, by default the caller's
unfoldable pub wallet_of : TokenClaims → String → String
wallet_of claims named = let id = trim_space named in if id == "" then claims.player_id else id

-- The head of each handler, which ends it early by `stop`; `act` is the rest, with the wallet.
unfoldable pub with_wallet {ℓ} :
    {R : Type 0} {T : Type ℓ}
    → (Response WalletAnswer → T)
    → (R → String)
    → Result R
    → (String → R → T)
    → Claims
    → T
with_wallet stop name decoded act none = stop (refuse 401 "missing claims")
with_wallet stop name (err e) act (some claims) = stop (refuse 400 "invalid payload")
with_wallet stop name (ok req) act (some claims) =
    let wallet = wallet_of claims (name req) in
    if not (wallet == claims.player_id) then stop (refuse 403 "forbidden") else act wallet req

-- `errors.Is(err, walletguard.ErrInsufficientFactors)`
unfoldable pub is_insufficient : Error → Bool
is_insufficient insufficient_factors = true
is_insufficient (wrapped text cause) = is_insufficient cause
is_insufficient _ = false

-- the status of an error in the two handlers that ask the guard
abbrev pub guarded_status : Error → ℕ
guarded_status e = if is_insufficient e then 403 else 400

-- The router's Recoverer answers a panic of the handler with 500.
unfoldable pub recovered_status : Error → ℕ
recovered_status (panicked text) = 500
recovered_status e = guarded_status e

-- the end of a handler
abbrev pub answered :
    {V : Type 0} → (Error → ℕ) → String → (V → WalletPayload) → Result V → Response WalletAnswer
answered status wallet payload (err e) = failed (status e) e
answered status wallet payload (ok v) =
    json 200 (record { wallet_id = wallet; payload = payload v })

abbrev pub bad_request : Error → ℕ
bad_request e = 400

-- VerifyAuthorizeAndProve after its head
abbrev pub prove_for :
    (String → String)
    → Memory
    → (ℕ → Result Header)
    → Guard
    → Client
    → ℕ
    → String
    → SpendProveReq
    → Option (Response WalletAnswer)
prove_for sha memory rpc guard prover fuel wallet req =
    elim (Prove.verify_authorize_and_prove sha memory rpc guard prover fuel req.header_start
      req.header_end (record { wallet_id = wallet; amount = req.amount; asset_id = req.asset_id })
      req.assertions req.mode
      (record {
        circuit_id = req.circuit_id;
        witness = req.witness;
        paired_device_id = req.paired_id;
      })) [ none ↦ none | some proved ↦ some (answered recovered_status wallet proof proved) ]

-- VerifyAuthorizeAndProve, which reads no state; `none` if the fetch of the headers has not returned
-- within the fuel.
unfoldable pub prove_spend :
    (String → String)
    → Memory
    → (ℕ → Result Header)
    → Guard
    → Client
    → ℕ
    → Result SpendProveReq
    → Claims
    → Option (Response WalletAnswer)
prove_spend sha memory rpc guard prover fuel decoded =
    with_wallet some (λ r. r.wallet_id) decoded (prove_for sha memory rpc guard prover fuel)

module _ (c : Codec) where
  unfoldable pub scan_notes : Result ScanNotesReq → Handler WalletAnswer Service
  scan_notes decoded claims s =
      with_wallet (λ r. (r, s)) (λ r. r.wallet_id) decoded
        (λ wallet req. (
          answered bad_request wallet notes
              (Notes.scan_notes s wallet req.asset_id req.include_spent req.limit),
          s,
        ))
        claims

  unfoldable pub build_spend_transaction : Result BuildTxReq → Handler WalletAnswer Service
  build_spend_transaction decoded claims s =
      with_wallet (λ r. (r, s)) (λ r. r.wallet_id) decoded
        (λ wallet req. (
          answered bad_request wallet
              (λ built. unsigned_tx built (length req.input_notes) (u64 (req.amount + req.fee)))
              (Transactions.build_spend_transaction c (record {
                wallet_id = wallet;
                recipient = req.recipient;
                asset_id = req.asset_id;
                amount = req.amount;
                fee = req.fee;
                input_notes = req.input_notes;
              })),
          s,
        ))
        claims

  unfoldable pub sign_transaction : Guard → String → Result SignTxReq → Handler WalletAnswer Service
  sign_transaction guard now decoded claims s =
      with_wallet (λ r. (r, s)) (λ r. r.wallet_id) decoded
        (λ wallet req. (
          answered guarded_status wallet signed_tx
              (Transactions.sign_transaction c guard now wallet req.unsigned_tx req.assertions),
          s,
        ))
        claims

  unfoldable pub submit_transaction : String → Result SubmitTxReq → Handler WalletAnswer Service
  submit_transaction now decoded claims s =
      with_wallet (λ r. (r, s)) (λ r. r.wallet_id) decoded
        (λ wallet req.
          let (sent, t) = Transactions.submit_transaction c s now wallet req.unsigned_tx in
          (answered bad_request wallet tx sent, t))
        claims

  unfoldable pub transaction_status : Result TxStatusReq → Handler WalletAnswer Service
  transaction_status decoded claims s =
      with_wallet (λ r. (r, s)) (λ r. r.wallet_id) decoded
        (λ wallet req. (
          answered bad_request wallet tx (Transactions.get_transaction_status s wallet req.tx_id),
          s,
        ))
        claims

-- a request to one of the routes that work on the service's state, with its decoded body
pub data WalletRequest : Type 0 where
  post_scan : Result ScanNotesReq → WalletRequest
  post_build : Result BuildTxReq → WalletRequest
  post_sign : Result SignTxReq → WalletRequest
  post_submit : Result SubmitTxReq → WalletRequest
  post_status : Result TxStatusReq → WalletRequest

unfoldable pub route : Codec → Guard → String → WalletRequest → Handler WalletAnswer Service
route c guard now (post_scan r) = scan_notes c r
route c guard now (post_build r) = build_spend_transaction c r
route c guard now (post_sign r) = sign_transaction c guard now r
route c guard now (post_submit r) = submit_transaction c now r
route c guard now (post_status r) = transaction_status c r

-- `authorization` is the header of the request.
unfoldable pub serve :
    (String → Result TokenClaims)
    → Codec
    → Guard
    → String
    → WalletRequest
    → String
    → Service
    → Response WalletAnswer × Service
serve parse c guard now request = require_auth parse (route c guard now request)
