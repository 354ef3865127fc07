-- ===== src/Http/Wallet/Unsigned.antt =====
-- A spend that is submitted without a signature.
use o2ul_portal.Common.{
  lookup, lookup-insert_self, String, ◌≡◌, refl, ap, subst, arith, eq_iff, inl, inr, Result-cases,
  All, some, Result, ok, trim_space, is_empty, strip_prefix,
}
use o2ul_portal.Wallet.Guard.{Guard}
use o2ul_portal.Wallet.Service.Payloads.{Codec, WalletSpendBuild, IsJson}
use o2ul_portal.Wallet.Service.Notes.{WalletTransaction, Service}
use o2ul_portal.Wallet.Service.Transactions
use o2ul_portal.Wallet.Service.Transactions.{
  trimmed, read_payload, transaction_of, record_transaction, prepare,
}
use o2ul_portal.Wallet.Service.Lifecycle.{
  Describes, transaction_of-Describes, built, unmarshal_for-built, prepare-read,
}
use o2ul_portal.Wallet.Service.Spent.{IsSpent, record_transaction-marks}
use o2ul_portal.Http.{json, TokenClaims}
use o2ul_portal.Http.Middleware.{require_auth}
use o2ul_portal.Http.Wallet.{
  tx, post_submit, wallet_of, with_wallet, submit_transaction, route, serve,
}

module _ (c : Codec) (law : IsJson c) where
  read_payload-built :
      (wallet : String) (req : WalletSpendBuild)
      → read_payload c wallet (c.marshal_spend req)
        ≡ ok (record { payload = c.marshal_spend req; signature = "" })
  unfolding read_payload
  read_payload-built wallet req = elim (Result-cases (c.unmarshal_signed (c.marshal_spend req))) [
    | inr (e, h) ↦ ground arith
    | inl (signed, h) ↦
        ground
          (arith, law.spend_unsigned req signed h, ap is_empty (law.spend_unsigned req signed h))
  ]

  -- The transaction of a spend without a signature.
  abbrev pub unsigned_of : String → WalletSpendBuild → WalletTransaction
  unsigned_of now req =
      transaction_of c (trim_space req.wallet_id) now
        (record { payload = c.marshal_spend (trimmed req); signature = "" }) (trimmed req)

  submit_transaction-built :
      (now : String) (req : WalletSpendBuild) (s : Service) (text : String)
      → Transactions.build_spend_transaction c req ≡ ok text
      → Transactions.submit_transaction c s now req.wallet_id text
        ≡ (ok (unsigned_of now req), record_transaction (unsigned_of now req) s)
  unfolding Transactions.submit_transaction
  submit_transaction-built now req s text h =
      let (named, same) = built c law req text h in
      let made =
        prepare-read c law now req.wallet_id (c.marshal_spend (trimmed req)) _ (trimmed req) named
          (law.spend_not_empty (trimmed req))
          (read_payload-built (trim_space req.wallet_id) (trimmed req))
          (unmarshal_for-built c law req) in
      rw same (rw (made, Transactions.submit_transaction) refl)

  pub serve_submit-built :
      (parse : String → Result TokenClaims) (guard : Guard) (now authorization token : String)
      (caller : TokenClaims) (req : WalletSpendBuild) (text : String) (s : Service)
      → strip_prefix "Bearer " authorization ≡ some token
      → parse token ≡ ok caller
      → req.wallet_id ≡ caller.player_id
      → Transactions.build_spend_transaction c req ≡ ok text
      → serve parse c guard now
          (post_submit (ok (record { wallet_id = ""; unsigned_tx = text })))
          authorization
          s
        ≡ (
          json 200 (record { wallet_id = caller.player_id; payload = tx (unsigned_of now req) }),
          record_transaction (unsigned_of now req) s,
        )
  unfolding serve require_auth route submit_transaction with_wallet wallet_of trim_space
  serve_submit-built parse guard now authorization token caller req text s a b mine h =
      let sent = unsigned_of now req in
      let made =
        subst
          (λ w.
            Transactions.submit_transaction c s now w text ≡ (ok sent, record_transaction sent s))
          mine (submit_transaction-built now req s text h) in
      rw (a, serve, require_auth)
        (rw b (rw (eq_iff caller.player_id caller.player_id).1 (rw made refl)))

  -- No signature is needed to spend. For any player whose token is accepted and any spend that
  -- BuildSpendTransaction accepts for that player, a request that submits the built payload as it is,
  -- in the wallet's default, is answered 200 whatever the guard is, which is not asked. The
  -- transaction in the answer is recorded under its id in the state after; it has the spend's
  -- wallet, asset, amount, fee and input notes and an empty signature, and in the state after the
  -- input notes of the spend are spent for the player's wallet.
  pub serve-unsigned :
      (parse : String → Result TokenClaims) (guard : Guard) (now authorization token : String)
      (caller : TokenClaims) (req : WalletSpendBuild) (text : String) (s : Service)
      → strip_prefix "Bearer " authorization ≡ some token
      → parse token ≡ ok caller
      → req.wallet_id ≡ caller.player_id
      → Transactions.build_spend_transaction c req ≡ ok text
      → (sent : WalletTransaction) × (v : Service) × (serve parse c guard now
            (post_submit (ok (record { wallet_id = ""; unsigned_tx = text })))
            authorization
            s
          ≡ (json 200 (record { wallet_id = caller.player_id; payload = tx sent }), v))
        × (lookup sent.tx_id v.transactions ≡ some sent)
        × Describes c law now req sent
        × (sent.signature ≡ "")
        × All (IsSpent v (trim_space caller.player_id)) req.input_notes
  unfolding record_transaction
  serve-unsigned parse guard now authorization token caller req text s a b mine h =
      let sent = unsigned_of now req in
      (
        sent,
        record_transaction sent s,
        serve_submit-built parse guard now authorization token caller req text s a b mine h,
        lookup-insert_self sent.tx_id sent s.transactions,
        transaction_of-Describes c law now "" req,
        refl,
        subst (λ w. All (IsSpent (record_transaction sent s) w) sent.input_notes)
            (ap trim_space mine) (record_transaction-marks sent s),
      )
