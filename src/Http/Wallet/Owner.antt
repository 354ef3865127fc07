-- ===== src/Http/Wallet/Owner.antt =====
-- Whose wallet a request to the wallet handler can reach.
use o2ul_portal.Common.{
  All, ℕ, ◌+◌, length, String, ◌≡◌, ◌≢◌, refl, sym, subst, List, arith, eq_iff, ◌==◌, inl, inr, ◌⊎◌,
  Bool-cases, Option-cases, Result-cases, none, some, Result, ok, err, Error, message, trim_space,
  strip_prefix,
}
use o2ul_portal.Wallet.Guard.{Guard, Assertion}
use o2ul_portal.Wallet.Service.Payloads.{Codec, WalletSpendBuild, WalletSignedTransaction, IsJson}
use o2ul_portal.Wallet.Service.Notes.{Service, spent_of}
use o2ul_portal.Wallet.Service.Transactions
use o2ul_portal.Wallet.Service.Transactions.{
  u64, trimmed, read_payload, prepare, transaction_of, record_transaction, check_spend,
  unmarshal_for,
}
use o2ul_portal.Wallet.Service.Lifecycle.{built, signed_payload}
use o2ul_portal.Wallet.Service.Scan.{IsNoteOf, scan_notes-IsNoteOf}
use o2ul_portal.Wallet.Service.Spent.{status_found}
use o2ul_portal.Wallet.Service.Owner.{submit-kept, submit-owner, submit-others}
use o2ul_portal.Http.{Response, failed, json, TokenClaims, Claims}
use o2ul_portal.Http.Middleware.{require_auth}
use o2ul_portal.Http.Wallet.{
  WalletPayload, proof, notes, unsigned_tx, signed_tx, tx, WalletAnswer, WalletRequest, wallet_of,
  with_wallet, answered, route, serve, post_scan, post_build, post_sign, post_submit, post_status,
  bad_request, guarded_status, scan_notes, build_spend_transaction, sign_transaction,
  submit_transaction, transaction_status,
}

module _ (c : Codec) where
  -- What an answer gives out is of this wallet: the spend that it holds, the signer of a signed
  -- transaction, the wallet of a recorded one, or the notes and their marks. No route here gives out
  -- a proof.
  abbrev pub IsOwn : Service → String → WalletPayload → Type 0
  IsOwn s wallet (proof made) = ⊥
  IsOwn s wallet (notes found) = All (IsNoteOf s wallet) found
  IsOwn s wallet (unsigned_tx built count outflow) =
      (spend : WalletSpendBuild) × (c.unmarshal_spend built ≡ ok spend) × (spend.wallet_id ≡ wallet)
  IsOwn s wallet (signed_tx text) =
      (signed : WalletSignedTransaction) × (c.unmarshal_signed text ≡ ok signed)
      × (signed.signed_by ≡ wallet)
  IsOwn s wallet (tx found) = found.wallet_id ≡ wallet

  pub record IsOwned (player : String) (s v : Service) (answer : WalletAnswer) : Type 0 where
    pub wallet : answer.wallet_id ≡ player
    pub own : IsOwn s (trim_space player) answer.payload
    pub others : (w : String) → w ≢ trim_space player → spent_of v w ≡ spent_of s w

  abbrev Refuses : Response WalletAnswer → Service → Service → Type 0
  Refuses answer s v = ((status : ℕ) × (e : Error) × (answer ≡ failed status e)) × (v ≡ s)

  abbrev Outcome : String → Service → Response WalletAnswer → Service → Type 0
  Outcome player s answer v =
      Refuses answer s v
      ⊎ ((given : WalletAnswer) × (answer ≡ json 200 given) × IsOwned player s v given)

  abbrev Settled : Claims → Service → Response WalletAnswer → Service → Type 0
  Settled claims s answer v =
      Refuses answer s v
      ⊎ ((caller : TokenClaims) × (given : WalletAnswer) × (claims ≡ some caller)
          × (answer ≡ json 200 given)
          × IsOwned caller.player_id s v given)

  with_wallet-Settled :
      {R : Type 0} (name : R → String) (decoded : Result R)
      (act : String → R → Response WalletAnswer × Service) (claims : Claims) (s : Service)
      → ((wallet : String) (req : R) → Outcome wallet s (act wallet req).0 (act wallet req).1)
      → Settled claims s
          (with_wallet (λ r. (r, s)) name decoded act claims).0
          (with_wallet (λ r. (r, s)) name decoded act claims).1
  unfolding with_wallet
  with_wallet-Settled name decoded act none s h = inl ((401, message "missing claims", refl), refl)
  with_wallet-Settled name (err e) act (some claims) s h =
      inl ((400, message "invalid payload", refl), refl)
  with_wallet-Settled name (ok req) act (some claims) s h =
      elim (Bool-cases (wallet_of claims (name req) == claims.player_id)) [
        | inr other ↦ rw (other, with_wallet) (inl ((403, message "forbidden", refl), refl))
        | inl same ↦
            rw (same, with_wallet)
              (elim (h (wallet_of claims (name req)) req) [
                | inl refused ↦ inl refused
                | inr (given, e, owned) ↦ inr (
                  claims,
                  given,
                  refl,
                  e,
                  subst (λ w. IsOwned w s (act (wallet_of claims (name req)) req).1 given)
                      ((eq_iff (wallet_of claims (name req)) claims.player_id).0 same) owned,
                )
              ])
      ]

  answered-Outcome :
      {V : Type 0} (status : Error → ℕ) (wallet : String) (payload : V → WalletPayload)
      (r : Result V) (s v : Service)
      → ((e : Error) → r ≡ err e → v ≡ s)
      → ((x : V) → r ≡ ok x → IsOwn s (trim_space wallet) (payload x))
      → ((w : String) → w ≢ trim_space wallet → spent_of v w ≡ spent_of s w)
      → Outcome wallet s (answered status wallet payload r) v
  answered-Outcome status wallet payload (err e) s v kept own others =
      inl ((status e, e, refl), kept e refl)
  answered-Outcome status wallet payload (ok x) s v kept own others = inr (
    record { wallet_id = wallet; payload = payload x },
    refl,
    record { wallet = refl; own = own x refl; others = others },
  )

  -- An operation that changes nothing.
  answered-Outcome_reads :
      {V : Type 0} (status : Error → ℕ) (wallet : String) (payload : V → WalletPayload)
      (r : Result V) (s : Service)
      → ((x : V) → r ≡ ok x → IsOwn s (trim_space wallet) (payload x))
      → Outcome wallet s (answered status wallet payload r) s
  answered-Outcome_reads status wallet payload r s own =
      answered-Outcome status wallet payload r s s (λ e h. refl) own (λ w ne. refl)

  module _ (law : IsJson c) where
    built-IsOwn :
        (s : Service) (req : WalletSpendBuild) (text : String) (count outflow : ℕ)
        → Transactions.build_spend_transaction c req ≡ ok text
        → IsOwn s (trim_space req.wallet_id) (unsigned_tx text count outflow)
    built-IsOwn s req text count outflow h =
        let (named, same) = built c law req text h in
        (trimmed req, rw same (law.spend_round (trimmed req)), refl)

    signed-IsOwn :
        (s : Service) (guard : Guard) (now wallet payload text : String)
        (assertions : List Assertion)
        → Transactions.sign_transaction c guard now wallet payload assertions ≡ ok text
        → IsOwn s (trim_space wallet) (signed_tx text)
    signed-IsOwn s guard now wallet payload text assertions h =
        let (full, same) = signed_payload c law guard now wallet payload assertions text h in
        subst (λ z. IsOwn s (trim_space wallet) (signed_tx z)) (sym same)
          (_, law.signed_round _, refl)

    route-Settled :
        (guard : Guard) (now : String) (request : WalletRequest) (claims : Claims) (s : Service)
        → Settled claims s
            (route c guard now request claims s).0
            (route c guard now request claims s).1
    unfolding route scan_notes build_spend_transaction sign_transaction submit_transaction
        transaction_status
    route-Settled guard now (post_scan r) claims s =
        with_wallet-Settled (λ q. q.wallet_id) r _ claims s
          (λ wallet req.
            answered-Outcome_reads bad_request wallet notes _ s
              (λ x h. scan_notes-IsNoteOf s wallet req.asset_id req.include_spent req.limit x h))
    route-Settled guard now (post_build r) claims s =
        with_wallet-Settled (λ q. q.wallet_id) r _ claims s
          (λ wallet req.
            answered-Outcome_reads bad_request wallet _ _ s
              (λ x h. built-IsOwn s _ x (length req.input_notes) (u64 (req.amount + req.fee)) h))
    route-Settled guard now (post_sign r) claims s =
        with_wallet-Settled (λ q. q.wallet_id) r _ claims s
          (λ wallet req.
            answered-Outcome_reads guarded_status wallet signed_tx _ s
              (λ x h. signed-IsOwn s guard now wallet req.unsigned_tx x req.assertions h))
    route-Settled guard now (post_submit r) claims s =
        with_wallet-Settled (λ q. q.wallet_id) r _ claims s
          (λ wallet req.
            answered-Outcome bad_request wallet tx
              (Transactions.submit_transaction c s now wallet req.unsigned_tx).0 s
              (Transactions.submit_transaction c s now wallet req.unsigned_tx).1
              (submit-kept c now wallet req.unsigned_tx s)
              (submit-owner c now wallet req.unsigned_tx s)
              (submit-others c now wallet req.unsigned_tx s))
    route-Settled guard now (post_status r) claims s =
        with_wallet-Settled (λ q. q.wallet_id) r _ claims s
          (λ wallet req.
            answered-Outcome_reads bad_request wallet tx _ s
              (λ found h. (status_found s wallet req.tx_id found h).1))

    -- A request to the wallet is for the caller's wallet. Whatever the body and the claims of its
    -- token are, a request to one of the five routes that work on the service's state is either
    -- refused and changes nothing, or its token is accepted and the answer is 200. Then the answer
    -- names the player of the token as the wallet; the spend, the signed or the recorded transaction
    -- in it is of that wallet, and so are the notes, by their ids, where those that the wallet has
    -- spent are shown as spent; no proof is given out, and the spent notes of all wallets but that
    -- one are as before. Wallets are told apart without the spaces around their ids.
    pub serve-IsOwned :
        (parse : String → Result TokenClaims) (guard : Guard) (now authorization : String)
        (request : WalletRequest) (s v : Service) (answer : Response WalletAnswer)
        → serve parse c guard now request authorization s ≡ (answer, v)
        → (((status : ℕ) × (e : Error) × (answer ≡ failed status e)) × (v ≡ s))
          ⊎ ((token : String) × (caller : TokenClaims) × (given : WalletAnswer) × (strip_prefix
                  "Bearer " authorization
                ≡ some token)
              × (parse token ≡ ok caller)
              × (answer ≡ json 200 given)
              × IsOwned caller.player_id s v given)
    unfolding serve require_auth
    serve-IsOwned parse guard now authorization request s v answer h =
        elim (Option-cases (strip_prefix "Bearer " authorization)) [
          | inl a ↦ inl ((401, message "missing bearer token", ground arith), ground arith)
          | inr (token, a) ↦ elim (Result-cases (parse token)) [
            | inr (x, b) ↦ inl ((401, message "invalid token", ground arith), ground arith)
            | inl (caller, b) ↦
                let called : route c guard now request (some caller) s ≡ (answer, v) =
                  ground arith in
                elim (subst (λ z. Settled (some caller) s z.0 z.1) called
                  (route-Settled guard now request (some caller) s)) [
                    | inl refused ↦ inl refused
                    | inr (_, given, same, reply, owned) ↦ inr (
                      token,
                      caller,
                      given,
                      a,
                      b,
                      reply,
                      subst (λ k. IsOwned k s v given) (ground arith) owned,
                    )
                  ]
          ]
        ]
