-- ===== src/Wallet/Defaults.antt =====
-- The wallet service with its defaults (internal/application/o2ul_wallet_defaults.go). The embedded
-- files and the environment variables are parameters.
use o2ul_portal.Common.{
  ℕ, String, Bool, true, false, not, Option, none, some, List, [], ◌∷◌, ◌==◌, nat_eq, is_empty,
  concat, trim_space, lookup, Map, if◌then◌else◌, Result, ok, err, Error, message, wrapped, ◌>>=◌,
}
use o2ul_portal.Common.Int.{pos}
use o2ul_portal.Wallet.LightClient.{Header}
use o2ul_portal.Wallet.Guard.{
  Guard, Verifier, Assertion, SpendIntent, factor_device, factor_passkey, factor_guardian,
  new_guard,
}
use o2ul_portal.Wallet.Prover.{Client, LocalProver, DelegatedProver, PairingRegistry}
use o2ul_portal.Wallet.HeaderRpc.{
  Wire, RpcDoer, HeaderRpc, header_not_found, new_http3_header_rpc, header_by_number, fixture_do,
}
use o2ul_portal.Wallet.HeaderRpc.Fixture.{fixture_endpoint}
pub mod Profile
pub mod Accepts

-- The embedded files, and json.Unmarshal into the header vectors, whose fields are those of a header.
pub record Embedded : Type 0 where
  pub core : String
  pub extended : String
  pub json_rpc_header : ℕ → String
  pub unmarshal_vectors : String → Result (List Header)

-- a map by number; the entry that was set last comes first
abbrev pub HeaderMap : Type 0
HeaderMap = List (ℕ × Header)

pub find_header : ℕ → HeaderMap → Option Header
find_header n [] = none
find_header n ((k, h) ∷ m) = if nat_eq k n then some h else find_header n m

-- the loop over the vectors
pub headers_by_number : HeaderMap → List Header → HeaderMap
headers_by_number m [] = m
headers_by_number m (v ∷ vectors) = headers_by_number ((v.number, v) ∷ m) vectors

-- `HeaderByNumber` of defaultHeaderRPC
unfoldable pub default_header : HeaderMap → ℕ → Result Header
default_header m n = elim (find_header n m) [ none ↦ err (header_not_found n) | some h ↦ ok h ]

abbrev pub default_profile : String
default_profile = "ethapi-core"

abbrev pub rpc_url_required : Error
rpc_url_required =
    message
      "O2UL_WALLET_LIGHTCLIENT_RPC_URL is required when O2UL_WALLET_HEADER_FIXTURE_PROFILE=ethapi-http3-rpc"

abbrev pub default_local_prover : LocalProver
default_local_prover circuit_id witness =
    ok (concat "local:" (concat circuit_id (concat ":" witness)))

abbrev pub default_delegated_prover : DelegatedProver
default_delegated_prover device_id circuit_id witness =
    ok
      (concat "delegated:" (concat device_id (concat ":" (concat circuit_id (concat ":" witness)))))

abbrev pub default_pairing_registry : PairingRegistry
default_pairing_registry device_id = not (device_id == "")

abbrev pub non_empty_assertion : Verifier
non_empty_assertion intent assertion = not (assertion.payload == "")

-- The parts of the service; NewO2ULWalletService only puts them together.
pub record WalletParts : Type 0 where
  pub header_rpc : ℕ → Result Header
  pub prover : Client
  pub guard : Guard

abbrev pub default_verifiers : Map Verifier
default_verifiers =
    (factor_device, non_empty_assertion)
    ∷ (factor_passkey, non_empty_assertion)
    ∷ (factor_guardian, non_empty_assertion)
    ∷ []

unfoldable pub default_guard : Result Guard
default_guard = new_guard (pos 2) default_verifiers

abbrev pub default_prover : Client
default_prover = record {
  local = some default_local_prover;
  delegate = some default_delegated_prover;
  pairs = some default_pairing_registry;
}

module _ (wire : Wire) (http3_client : RpcDoer) (embedded : Embedded) where
  abbrev pub unsupported_profile : String → Error
  unsupported_profile profile = message (
      concat "unsupported wallet header fixture profile " (
        concat (wire.quote profile)
          " (supported: ethapi-core,ethapi-extended,ethapi-http3-fixture,ethapi-http3-rpc)"))

  abbrev profiles : Map String
  profiles = ("ethapi-core", embedded.core) ∷ ("ethapi-extended", embedded.extended) ∷ []

  unfoldable pub load_header_vectors : String → Result HeaderMap
  load_header_vectors profile = elim (lookup profile profiles) [
    | none ↦ err (unsupported_profile profile)
    | some encoded ↦ elim (embedded.unmarshal_vectors encoded) [
      | err e ↦ err (wrapped "decode blockchain header vectors" e)
      | ok vectors ↦ ok (headers_by_number [] vectors)
    ]
  ]

  abbrev over_vectors : Result HeaderMap → Result (ℕ → Result Header)
  over_vectors loaded = loaded >>= λ m. ok (default_header m)

  abbrev over_http3 : Result HeaderRpc → Result (ℕ → Result Header)
  over_http3 made = made >>= λ rpc. ok (header_by_number wire rpc)

  unfoldable pub load_header_rpc : String → String → Result (ℕ → Result Header)
  load_header_rpc profile rpc_endpoint =
      let endpoint = trim_space rpc_endpoint in
      if profile == "ethapi-core"
      then over_vectors (load_header_vectors profile)
      else if profile == "ethapi-extended"
      then over_vectors (load_header_vectors profile)
      else if profile == "ethapi-http3-fixture"
      then over_http3 (
          new_http3_header_rpc wire http3_client fixture_endpoint
            (some (fixture_do wire embedded.json_rpc_header)))
      else if profile == "ethapi-http3-rpc"
      then if endpoint == ""
        then err rpc_url_required
        else over_http3 (new_http3_header_rpc wire http3_client endpoint none)
      else err (unsupported_profile profile)

  -- the profile that is meant, by default the core one
  abbrev pub chosen_profile : String → String
  chosen_profile raw =
      let profile = trim_space raw in if profile == "" then default_profile else profile

  unfoldable pub new_default_service_with_profile : String → String → Result WalletParts
  new_default_service_with_profile raw rpc_endpoint = do
    header_rpc ← load_header_rpc (chosen_profile raw) rpc_endpoint
    guard ← default_guard
    ok (record { header_rpc = header_rpc; prover = default_prover; guard = guard })

  -- on the values of the two environment variables
  unfoldable pub new_default_service : String → String → Result WalletParts
  new_default_service profile rpc_url =
      new_default_service_with_profile (trim_space profile) (trim_space rpc_url)
