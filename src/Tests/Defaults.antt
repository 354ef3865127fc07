-- ===== src/Tests/Defaults.antt =====
-- The default wallet service over a small wire format: a request is sent as its tag.
use o2ul_portal.Common.{
  ◌≡◌, refl, String, false, none, List, [], ◌∷◌, Result, ok, err, message, arith, inl, inr,
  trim_space, is_space_code, if◌then◌else◌,
}
use o2ul_portal.Common.Int.{pos}
use o2ul_portal.Wallet.Guard.{SpendIntent, is_invalid_intent, authorize}
use o2ul_portal.Wallet.HeaderRpc.{
  Wire, Param, text, JsonRpcResponse, tag, header_not_found, RpcDoer,
}
use o2ul_portal.Wallet.HeaderRpc.Tags.{is_fixture}
use o2ul_portal.Wallet.HeaderRpc.Fixture.{IsWire, embedded_header}
use o2ul_portal.Wallet.Defaults.{Embedded, WalletParts, new_default_service}
use o2ul_portal.Wallet.Defaults.Profile.{new_default_service-fixture}
use o2ul_portal.Wallet.Defaults.Accepts.{default_guard-authorize}

abbrev first_param : List Param → Result String
first_param (text t ∷ ps) = ok t
first_param ps = err (message "no tag")

abbrev no_result : JsonRpcResponse
no_result = record { jsonrpc = "2.0"; id = pos 1; result = none; error = none }

abbrev wire : Wire
wire = record {
  marshal_request = λ r. first_param r.params;
  unmarshal_request = λ t. ok (record {
    jsonrpc = "2.0";
    id = pos 1;
    method = "eth_getHeaderByNumber";
    params = text t ∷ [];
  });
  unmarshal_response = λ body. ok no_result;
  new_request = λ endpoint payload. ok tt;
  lower_beyond_ascii = λ c. c;
  show_int = λ n. "n";
  quote = λ s. s;
}

wire-IsWire : IsWire wire
wire-IsWire = record {
  request_round_trip = λ n. (tag n, refl, refl);
  null_decoded = refl;
  fixture_url = λ payload. refl;
}

abbrev embedded : Embedded
embedded = record {
  core = "[]";
  extended = "[]";
  json_rpc_header = λ n. "{}";
  unmarshal_vectors = λ s. ok [];
}

abbrev client : RpcDoer
client endpoint body = err (message "offline")

fixture_chosen : trim_space (trim_space " ethapi-http3-fixture") ≡ "ethapi-http3-fixture"
unfolding trim_space is_space_code
fixture_chosen = refl

new_default_service-fixture_example :
    (parts : WalletParts) × (new_default_service wire client embedded " ethapi-http3-fixture" ""
      ≡ ok parts)
    × (parts.header_rpc 12 ≡ (
        if is_fixture 12
        then embedded_header wire embedded.json_rpc_header 12
        else err (header_not_found 12)))
new_default_service-fixture_example =
    new_default_service-fixture wire client embedded wire-IsWire " ethapi-http3-fixture" "" 12
      fixture_chosen (omega arith)

abbrev intent : SpendIntent
intent = record { wallet_id = "w"; amount = 5; asset_id = "o2ul" }

intent_valid : is_invalid_intent intent ≡ false
unfolding is_invalid_intent
intent_valid = refl

abbrev service : WalletParts
service =
    (new_default_service-fixture wire client embedded wire-IsWire " ethapi-http3-fixture" "" 12
      fixture_chosen (omega arith)).0

service-made : new_default_service wire client embedded " ethapi-http3-fixture" "" ≡ ok service
service-made =
    (new_default_service-fixture wire client embedded wire-IsWire " ethapi-http3-fixture" "" 12
      fixture_chosen (omega arith)).1

default_guard-authorize_example :
    authorize service.guard intent (
      record { factor = "device"; payload = "made up" }
      ∷ record { factor = "guardian"; payload = "too" }
      ∷ [])
    ≡ ok tt
default_guard-authorize_example =
    default_guard-authorize wire client embedded " ethapi-http3-fixture" "" service intent "device"
      "guardian" "made up" "too" service-made intent_valid (inl refl) (inr (inr refl)) (λ e. cc)
      (λ e. cc) (λ e. cc)
