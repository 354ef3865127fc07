-- ===== src/Payment/Providers.antt =====
-- The stripe and steam providers (internal/infrastructure/payment). What they use of
-- encoding/json is a parameter: the object that a payload holds.
use Prim.Native.Char.{code}
use o2ul_portal.Common.{
  ℕ, ◌+◌, ◌*◌, String, Bool, true, false, not, ◌&&◌, Option, none, some, nat_eq, ◌==◌, is_empty,
  is_blank, concat, if◌then◌else◌, Map, insert, Result, ok, message, fail_if, ◌>>◌, ◌>>=◌, [],
}
use o2ul_portal.Common.Int.{pos, leb_ℤ}
use o2ul_portal.Payment.{CheckoutRequest, CheckoutSession, WebhookResult, PaymentProvider}

-- A value of `map[string]any` after json.Unmarshal.
mutual
  pub data Json : Type 0 where
    string : String → Json
    object : Fields → Json
    other : Json

  pub data Fields : Type 0 where
    done : Fields
    field : String → Json → Fields → Fields

-- `v, ok := fields[key]`
unfoldable pub find_field : String → Fields → Option Json
find_field key done = none
find_field key (field k v fields) =
    let rest = find_field key fields in if k == key then some v else rest

-- `v, _ := fields[key].(string)`
unfoldable pub text_field : String → Fields → String
text_field key fields = elim (find_field key fields) [ some (string s) ↦ s | _ ↦ "" ]

-- `fields[key].(map[string]any)`
unfoldable pub object_field : String → Fields → Option Fields
object_field key fields = elim (find_field key fields) [ some (object o) ↦ some o | _ ↦ none ]

-- json.Unmarshal into `map[string]any`, time.Now, and uuid.NewString.
pub record Platform : Type 0 where
  pub unmarshal : String → Result Fields
  pub now : ℕ
  pub uuid : String

-- strings.ReplaceAll(s, "-", "")
unfoldable pub without_dashes : String → String
without_dashes String.[] = ""
without_dashes (String.◌∷◌ c s) =
    let rest = without_dashes s in if nat_eq (code c) 45 then rest else String.◌∷◌ c rest

abbrev pub or_default : String → String → String
or_default s fallback = if is_empty s then fallback else s

-- `if id != "" { meta["playerId"] = id }`
abbrev pub with_player_id : String → Map String → Map String
with_player_id id meta = if is_empty id then meta else insert "playerId" id meta

-- the metadata of an event, for both providers
unfoldable pub event_metadata : Fields → Map String
event_metadata event =
    let meta = with_player_id (text_field "playerId" event) [] in
    elim (object_field "metadata" event) [
      | none ↦ meta
      | some raw ↦ with_player_id (text_field "playerId" raw) meta
    ]

abbrev pub minutes : ℕ → ℕ
minutes n = n * 60 * 1000000000

pub record Stripe : Type 0 where
  pub secret_key : String
  pub webhook_secret : String

unfoldable pub stripe_checkout : Platform → Stripe → CheckoutRequest → Result CheckoutSession
stripe_checkout env p req =
    let session_id = concat "cs_test_" (without_dashes env.uuid) in
    do
      fail_if (is_blank p.secret_key) (message "stripe secret key is not configured")
      fail_if (leb_ℤ req.amount (pos 0)) (message "amount must be > 0")
      ok (record {
        provider = "stripe";
        session_id = session_id;
        checkout_url = concat "https://checkout.stripe.com/pay/" session_id;
        expires_at = env.now + minutes 30;
      })

unfoldable pub stripe_webhook : Platform → Stripe → String → String → Result WebhookResult
stripe_webhook env p payload signature = do
  fail_if (is_blank p.webhook_secret) (message "stripe webhook secret is not configured")
  fail_if (is_blank signature) (message "missing stripe signature")
  event ← env.unmarshal payload
  ok (record {
    provider = "stripe";
    event_id = or_default (text_field "id" event) (concat "evt_" (without_dashes env.uuid));
    event_type = or_default (text_field "type" event) "unknown";
    accepted = true;
    metadata = event_metadata event;
  })

abbrev pub stripe : Platform → Stripe → PaymentProvider
stripe env p = record {
  provider_name = "stripe";
  create_checkout_session = stripe_checkout env p;
  handle_webhook = stripe_webhook env p;
}

pub record Steam : Type 0 where
  pub publisher_key : String
  pub web_api_key : String
  pub username : String
  pub login_password : String
  pub app_id : String
  pub webhook_secret : String

abbrev pub differ : Bool → Bool → Bool
differ true b = not b
differ false b = b

unfoldable pub steam_checkout : Platform → Steam → CheckoutRequest → Result CheckoutSession
steam_checkout env p req =
    let txn_id = concat "steam_txn_" (without_dashes env.uuid) in
    do
      fail_if (is_blank p.app_id) (message "steam app id is required")
      fail_if (is_blank p.publisher_key && is_blank p.web_api_key)
          (message "steam publisher key or steam web api key is required")
      fail_if (differ (not (is_blank p.username)) (not (is_blank p.login_password)))
          (message "steam username and steam login password must both be set")
      fail_if (leb_ℤ req.amount (pos 0)) (message "amount must be > 0")
      ok (record {
        provider = "steam";
        session_id = txn_id;
        checkout_url =
            concat "steam://openurl/https://partner.steam-api.com/pay/"
              (concat txn_id (concat "?appId=" p.app_id));
        expires_at = env.now + minutes 15;
      })

unfoldable pub steam_webhook : Platform → Steam → String → String → Result WebhookResult
steam_webhook env p payload signature = do
  fail_if (is_blank p.webhook_secret) (message "steam webhook secret is not configured")
  fail_if (is_blank signature) (message "missing steam signature")
  event ← env.unmarshal payload
  ok (record {
    provider = "steam";
    event_id =
        or_default (text_field "eventId" event) (concat "steam_evt_" (without_dashes env.uuid));
    event_type = or_default (text_field "type" event) "unknown";
    accepted = true;
    metadata = event_metadata event;
  })

abbrev pub steam : Platform → Steam → PaymentProvider
steam env p = record {
  provider_name = "steam";
  create_checkout_session = steam_checkout env p;
  handle_webhook = steam_webhook env p;
}
