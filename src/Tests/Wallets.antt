-- ===== src/Tests/Wallets.antt =====
-- Requests to the wallet handler by the player "w".
use o2ul_portal.Common.{
  ◌≤◌, lookup, ℕ, ◌+◌, String, ◌≡◌, refl, ◌↔◌, ◌⊎◌, List, [], ◌∷◌, All, some, arith, Result, ok,
  Error, trim_space, is_space_code, strip_prefix,
}
use o2ul_portal.Common.Int.{pos}
use o2ul_portal.Wallet.Guard.{Guard, authorize}
use o2ul_portal.Wallet.LightClient.{Header}
use o2ul_portal.Wallet.LightClient.Range.{Linked, answers}
use o2ul_portal.Wallet.Prover.{mode_auto, generate_proof}
use o2ul_portal.Wallet.Service.Payloads.{WalletSpendBuild}
use o2ul_portal.Wallet.Service.Notes.{WalletTransaction, Service}
use o2ul_portal.Wallet.Service.Transactions.{
  new_service, trimmed, build_spend_transaction, check_spend, record_transaction,
}
use o2ul_portal.Wallet.Service.Lifecycle.{Describes}
use o2ul_portal.Wallet.Service.Spent.{IsSpent}
use o2ul_portal.Http.{Response, failed, json, TokenClaims}
use o2ul_portal.Http.Wallet.{
  SpendProveReq, WalletAnswer, tx, proof, post_submit, wallet_of, prove_spend, serve,
}
use o2ul_portal.Http.Wallet.Owner.{IsOwned, serve-IsOwned}
use o2ul_portal.Http.Wallet.Proving.{intent_of, request_of, prove_spend_iff}
use o2ul_portal.Http.Wallet.Unsigned.{unsigned_of, serve_submit-built, serve-unsigned}
use o2ul_portal.Tests.Wallet.{two_factors, both, room, plain, rpc, prover}
use o2ul_portal.Tests.Codec.{sample_codec, sample_codec-IsJson}

abbrev caller : TokenClaims
caller = record {
  player_id = "w";
  email = "";
  username = "Wim";
  role = "registered";
  expires_at = pos 9;
}

abbrev parse : String → Result TokenClaims
parse token = ok caller

-- nothing is approved
abbrev closed : Guard
closed = record { threshold = pos 2; verifiers = [] }

abbrev spend : WalletSpendBuild
spend = record {
  wallet_id = "w";
  recipient = "r";
  asset_id = "o2ul";
  amount = 7;
  fee = 1;
  input_notes = "w-note-01" ∷ [];
}

abbrev text : String
text = sample_codec.marshal_spend (trimmed spend)

bearer : strip_prefix "Bearer " "Bearer t" ≡ some "t"
unfolding strip_prefix
bearer = refl

builds : build_spend_transaction sample_codec spend ≡ ok text
unfolding build_spend_transaction check_spend trim_space is_space_code
builds = refl

serve-unsigned_example :
    (sent : WalletTransaction) × (v : Service) × (serve parse sample_codec closed "noon"
        (post_submit (ok (record { wallet_id = ""; unsigned_tx = text })))
        "Bearer t"
        new_service
      ≡ (json 200 (record { wallet_id = "w"; payload = tx sent }), v))
    × (lookup sent.tx_id v.transactions ≡ some sent)
    × Describes sample_codec sample_codec-IsJson "noon" spend sent
    × (sent.signature ≡ "")
    × All (IsSpent v (trim_space "w")) spend.input_notes
serve-unsigned_example =
    serve-unsigned sample_codec sample_codec-IsJson parse closed "noon" "Bearer t" "t" caller spend
      text new_service bearer refl refl builds

-- what this submission records
abbrev sent : WalletTransaction
sent = unsigned_of sample_codec sample_codec-IsJson "noon" spend

abbrev after : Service
after = record_transaction sent new_service

abbrev reply : Response WalletAnswer
reply = json 200 (record { wallet_id = "w"; payload = tx sent })

served :
    serve parse sample_codec closed "noon"
      (post_submit (ok (record { wallet_id = ""; unsigned_tx = text })))
      "Bearer t"
      new_service
    ≡ (reply, after)
served =
    serve_submit-built sample_codec sample_codec-IsJson parse closed "noon" "Bearer t" "t" caller
      spend text new_service bearer refl refl builds

serve-IsOwned_example :
    (((status : ℕ) × (e : Error) × (reply ≡ failed status e)) × (after ≡ new_service))
    ⊎ ((token : String) × (by : TokenClaims) × (given : WalletAnswer) × (strip_prefix "Bearer "
            "Bearer t"
          ≡ some token)
        × (parse token ≡ ok by)
        × (reply ≡ json 200 given)
        × IsOwned sample_codec by.player_id new_service after given)
serve-IsOwned_example =
    serve-IsOwned sample_codec sample_codec-IsJson parse closed "noon" "Bearer t"
      (post_submit (ok (record { wallet_id = ""; unsigned_tx = text }))) new_service after reply
      served

abbrev prove_req : SpendProveReq
prove_req = record {
  header_start = 4;
  header_end = 6;
  wallet_id = " w";
  amount = 7;
  asset_id = "o2ul";
  mode = mode_auto;
  circuit_id = "spend";
  witness = "w";
  paired_id = "phone";
  assertions = both;
}

prove_spend_iff_example :
    (answer : Response WalletAnswer) × (prove_spend plain room rpc two_factors prover
        (2 + 2)
        (ok prove_req)
        (some caller)
      ≡ some answer)
    × ((answer ≡ json 200 (record { wallet_id = "w"; payload = proof "phonew" })) ↔ (
        (wallet_of caller " w" ≡ "w")
        × (2 + 1 ≤ room.max_headers)
        × ((headers : List Header) × (answers rpc 4 (2 + 1) ≡ ok headers) × Linked plain headers)
        × (authorize two_factors (intent_of "w" prove_req) both ≡ ok tt)
        × (generate_proof prover mode_auto (request_of prove_req) ≡ ok "phonew")))
prove_spend_iff_example =
    prove_spend_iff plain room rpc two_factors prover 2 prove_req caller "phonew" (omega arith) refl
