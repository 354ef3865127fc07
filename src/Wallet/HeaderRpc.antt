-- ===== src/Wallet/HeaderRpc.antt =====
-- The header source over JSON-RPC (internal/application/o2ul_wallet_lightclient_rpc.go) and its
-- fixture. encoding/json, net/http and the embedded files are parameters; bytes are texts.
use Prim.Native.Char.{Char}
use o2ul_portal.Common.{
  ℕ, ◌^◌, String, Bool, true, false, not, ◌||◌, Option, none, some, List, [], ◌∷◌, ◌==◌, ltb, leb,
  is_empty, is_nil, concat, decimal, trim_space, to_lower, strip_prefix, lookup, Map, if◌then◌else◌,
  Result, ok, err, Error, message, ◌>>=◌, ◌>>◌, fail_if,
}
use o2ul_portal.Common.Int.{ℤ, pos}
use o2ul_portal.Common.Numbers.{parse_uint, format_hex}
use o2ul_portal.Wallet.LightClient.{Header}
pub mod Tags
pub mod Fixture

-- an element of the list `params`, of type `any`
pub data Param : Type 0 where
  text : String → Param
  other : Param

pub record JsonRpcRequest : Type 0 where
  pub jsonrpc : String
  pub id : ℤ
  pub method : String
  pub params : List Param

pub record HeaderResult : Type 0 where
  pub number : String
  pub parent_hash : String
  pub state_root : String
  pub hash : String

pub record RpcError : Type 0 where
  pub code : ℤ
  pub text : String

pub record JsonRpcResponse : Type 0 where
  pub jsonrpc : String
  pub id : ℤ
  pub result : Option HeaderResult
  pub error : Option RpcError

-- a response, with the outcome of io.ReadAll on its body
pub record HttpResponse : Type 0 where
  pub status_code : ℕ
  pub body : Result String

-- `rpcDoer`, on the endpoint and the body of a POST request with JSON
abbrev pub RpcDoer : Type 0
RpcDoer = String → String → Result HttpResponse

-- json.Marshal and json.Unmarshal at the two types, http.NewRequestWithContext, the lower case of
-- runes beyond ASCII, and the texts of the errors that show a number or a quoted text.
pub record Wire : Type 0 where
  pub marshal_request : JsonRpcRequest → Result String
  pub unmarshal_request : String → Result JsonRpcRequest
  pub unmarshal_response : String → Result JsonRpcResponse
  pub new_request : String → String → Result (Unit {0})
  pub lower_beyond_ascii : Char → Char
  pub show_int : ℤ → String
  pub quote : String → String

pub record HeaderRpc : Type 0 where
  pub endpoint : String
  pub doer : RpcDoer

abbrev has_prefix : String → String → Bool
has_prefix prefix s = elim (strip_prefix prefix s) [ none ↦ false | some rest ↦ true ]

-- strings.TrimPrefix
unfoldable pub trim_prefix : String → String → String
trim_prefix prefix s = elim (strip_prefix prefix s) [ none ↦ s | some rest ↦ rest ]

-- the status codes of success
abbrev is_success : ℕ → Bool
is_success status = not (ltb status 200 || leb 300 status)

abbrev pub header_not_found : ℕ → Error
header_not_found number =
    message (concat "blockchain header fixture not found: number=" (decimal number))

abbrev pub tag : ℕ → String
tag number = concat "0x" (format_hex number)

abbrev pub header_request : ℕ → JsonRpcRequest
header_request number = record {
  jsonrpc = "2.0";
  id = pos 1;
  method = "eth_getHeaderByNumber";
  params = text (tag number) ∷ [];
}

-- the `switch` of the fixture, by the number of the embedded file
abbrev pub fixture_tags : Map ℕ
fixture_tags =
    ("0x0", 0)
    ∷ ("0x1", 1)
    ∷ ("0x9", 9)
    ∷ ("0xa", 10)
    ∷ ("0xb", 11)
    ∷ ("0xc", 12)
    ∷ ("0xd", 13)
    ∷ ("0xe", 14)
    ∷ ("0xf", 15)
    ∷ ("0x10", 16)
    ∷ ("0x11", 17)
    ∷ ("0x12", 18)
    ∷ ("0x13", 19)
    ∷ ("0x14", 20)
    ∷ ("0x15", 21)
    ∷ []

abbrev pub unsupported_method : String
unsupported_method =
    "{\"jsonrpc\":\"2.0\",\"id\":1,\"error\":{\"code\":-32601,\"message\":\"unsupported method\"}}"

abbrev pub null_result : String
null_result = "{\"jsonrpc\":\"2.0\",\"id\":1,\"result\":null}"

abbrev pub fixture_response : ℕ → String → HttpResponse
fixture_response status payload = record { status_code = status; body = ok payload }

-- `tag, _ := rpcReq.Params[0].(string)`
abbrev text_of : Param → String
text_of (text s) = s
text_of other = ""

module _ (wire : Wire) where
  -- `http3_client` is the client that stands in for a nil doer
  unfoldable pub new_http3_header_rpc : RpcDoer → String → Option RpcDoer → Result HeaderRpc
  new_http3_header_rpc http3_client raw doer =
      let endpoint = trim_space raw in
      if endpoint == ""
      then err (message "wallet light-client rpc endpoint is required")
      else if not (has_prefix "https://" (to_lower wire.lower_beyond_ascii endpoint))
      then err (message "wallet light-client rpc endpoint must be https for HTTP/3")
      else ok (record {
        endpoint = endpoint;
        doer = elim doer [ none ↦ http3_client | some given ↦ given ];
      })

  unfoldable pub parse_hex_uint64 : String → Result ℕ
  parse_hex_uint64 raw =
      let clean = trim_prefix "0x" (to_lower wire.lower_beyond_ascii (trim_space raw)) in
      if clean == ""
      then err (message (concat "invalid hex number " (wire.quote raw)))
      else elim (parse_uint 16 clean) [
        | none ↦ err (message (concat "strconv.ParseUint: parsing " (wire.quote clean)))
        | some n ↦ ok n
      ]

  -- the part of HeaderByNumber that reads the decoded response
  unfoldable pub read_header : ℕ → JsonRpcResponse → Result Header
  read_header number parsed = elim (parsed.error) [
    | some e ↦ err (
        message (
          concat "wallet light-client rpc error "
            (concat (wire.show_int e.code) (concat ": " e.text))))
    | none ↦ elim (parsed.result) [
      | none ↦ err (header_not_found number)
      | some r ↦ do
        n ← parse_hex_uint64 r.number
        ok (record {
          number = n;
          parent_hash = r.parent_hash;
          state_root = r.state_root;
          block_hash = r.hash;
        })
    ]
  ]

  unfoldable pub header_by_number : HeaderRpc → ℕ → Result Header
  header_by_number h number = do
    payload ← wire.marshal_request (header_request number)
    wire.new_request h.endpoint payload
    resp ← h.doer h.endpoint payload
    fail_if (not (is_success resp.status_code))
        (message (concat "wallet light-client rpc status " (decimal resp.status_code)))
    body ← resp.body
    parsed ← wire.unmarshal_response body
    read_header number parsed

  abbrev pub answer_tag : (ℕ → String) → String → HttpResponse
  answer_tag embedded t = elim (lookup (to_lower wire.lower_beyond_ascii t) fixture_tags) [
    | none ↦ fixture_response 200 null_result
    | some n ↦ fixture_response 200 (embedded n)
  ]

  abbrev pub answer_params : (ℕ → String) → List Param → HttpResponse
  answer_params embedded [] = fixture_response 400 unsupported_method
  answer_params embedded (p ∷ ps) = answer_tag embedded (text_of p)

  unfoldable pub fixture_do : (ℕ → String) → RpcDoer
  fixture_do embedded endpoint body = elim (wire.unmarshal_request body) [
    | err e ↦ err e
    | ok req ↦ ok (
        if not (req.method == "eth_getHeaderByNumber") || is_nil req.params
        then fixture_response 400 unsupported_method
        else answer_params embedded req.params)
  ]
