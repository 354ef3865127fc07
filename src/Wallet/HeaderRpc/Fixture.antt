-- ===== src/Wallet/HeaderRpc/Fixture.antt =====
-- The header source over the fixture answers with the embedded headers.
use o2ul_portal.Common.{
  ℕ, ◌^◌, ◌<◌, String, Bool, true, false, none, some, Option, ◌≡◌, refl, ap, ◌∙◌, lookup,
  if◌then◌else◌, Result, ok, err, ◌>>=◌,
}
use o2ul_portal.Common.Int.{pos}
use o2ul_portal.Wallet.LightClient.{Header}
use o2ul_portal.Wallet.HeaderRpc.{
  Wire, HeaderRpc, HttpResponse, tag, header_request, header_not_found, read_header,
  header_by_number, null_result, fixture_response, fixture_do, answer_tag, fixture_tags,
}
use o2ul_portal.Wallet.HeaderRpc.Tags.{is_fixture, to_lower-tag, lookup-fixture_tags}

abbrev pub fixture_endpoint : String
fixture_endpoint = "https://fixtures.invalid"

-- What the fixture relies on: a request for a header is decoded as it was encoded, the literal
-- `null_result` is decoded, and the endpoint is a URL.
pub record IsWire (wire : Wire) : Type 0 where
  pub request_round_trip :
      (n : ℕ)
      → (bytes : String) × (wire.marshal_request (header_request n) ≡ ok bytes)
        × (wire.unmarshal_request bytes ≡ ok (header_request n))
  pub null_decoded :
      wire.unmarshal_response null_result
      ≡ ok (record { jsonrpc = "2.0"; id = pos 1; result = none; error = none })
  pub fixture_url : (payload : String) → wire.new_request fixture_endpoint payload ≡ ok tt

module _ (wire : Wire) (embedded : ℕ → String) where
  abbrev pub fixture_rpc : HeaderRpc
  fixture_rpc = record { endpoint = fixture_endpoint; doer = fixture_do wire embedded }

  -- what an embedded file is read as
  abbrev pub embedded_header : ℕ → Result Header
  embedded_header n = do parsed ← wire.unmarshal_response (embedded n); read_header wire n parsed

module _ (wire : Wire) (law : IsWire wire) (embedded : ℕ → String) where
  answer_tag-fixture :
      (n : ℕ)
      → n < 2 ^ 64
      → answer_tag wire embedded (tag n)
        ≡ fixture_response 200 (if is_fixture n then embedded n else null_result)
  answer_tag-fixture n h =
      ap answer_lower (to_lower-tag wire n)
      ∙ (ap answer_number (lookup-fixture_tags wire n h) ∙ answer_number-if (is_fixture n))
    where
      answer_number : Option ℕ → HttpResponse
      answer_number o = elim o [
        | none ↦ fixture_response 200 null_result
        | some m ↦ fixture_response 200 (embedded m)
      ]

      answer_lower : String → HttpResponse
      answer_lower t = answer_number (lookup t fixture_tags)

      answer_number-if :
          (b : Bool)
          → answer_number (if b then some n else none)
            ≡ fixture_response 200 (if b then embedded n else null_result)
      answer_number-if true = refl
      answer_number-if false = refl

  fixture_do-tag :
      (n : ℕ) (endpoint bytes : String)
      → n < 2 ^ 64
      → wire.unmarshal_request bytes ≡ ok (header_request n)
      → fixture_do wire embedded endpoint bytes
        ≡ ok (fixture_response 200 (if is_fixture n then embedded n else null_result))
  unfolding fixture_do
  fixture_do-tag n endpoint bytes h decoded =
      rw (decoded, fixture_do) (ap ok (answer_tag-fixture n h))

  header_by_number-answered :
      (rpc : HeaderRpc) (n : ℕ) (bytes payload : String)
      → wire.marshal_request (header_request n) ≡ ok bytes
      → wire.new_request rpc.endpoint bytes ≡ ok tt
      → rpc.doer rpc.endpoint bytes ≡ ok (fixture_response 200 payload)
      → header_by_number wire rpc n
        ≡ (do parsed ← wire.unmarshal_response payload; read_header wire n parsed)
  unfolding header_by_number
  header_by_number-answered rpc n bytes payload encoded sent answered =
      rw (encoded, header_by_number) (rw sent (rw answered refl))

  read-fixture :
      (n : ℕ) (b : Bool)
      → (do
        parsed ← wire.unmarshal_response (if b then embedded n else null_result)
        read_header wire n parsed)
        ≡ (if b then embedded_header wire embedded n else err (header_not_found n))
  unfolding read_header
  read-fixture n true = refl
  read-fixture n false = rw (law.null_decoded, ◌>>=◌) refl

  -- Over the fixture, HeaderByNumber reads the embedded header of each number from 0 to 1 and from 9
  -- to 21, and reports every other uint64 as not found.
  pub header_by_number-fixture :
      (n : ℕ)
      → n < 2 ^ 64
      → header_by_number wire (fixture_rpc wire embedded) n
        ≡ (if is_fixture n then embedded_header wire embedded n else err (header_not_found n))
  header_by_number-fixture n h =
      let (bytes, encoded, decoded) = law.request_round_trip n in
      header_by_number-answered (fixture_rpc wire embedded) n bytes _ encoded
        (law.fixture_url bytes) (fixture_do-tag n fixture_endpoint bytes h decoded)
      ∙ read-fixture n (is_fixture n)
