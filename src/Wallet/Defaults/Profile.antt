-- ===== src/Wallet/Defaults/Profile.antt =====
-- The default service by profile.
use o2ul_portal.Common.{
  ℕ, ◌^◌, ◌<◌, String, some, ◌≡◌, refl, trim_space, to_lower, lower_rune, is_space_code,
  strip_prefix, if◌then◌else◌, ok, err,
}
use o2ul_portal.Common.Int.{pos}
use o2ul_portal.Wallet.Guard.{new_guard}
use o2ul_portal.Wallet.HeaderRpc.{
  Wire, RpcDoer, new_http3_header_rpc, header_by_number, header_not_found,
}
use o2ul_portal.Wallet.HeaderRpc.Tags.{is_fixture}
use o2ul_portal.Wallet.HeaderRpc.Fixture.{
  IsWire, fixture_endpoint, fixture_rpc, embedded_header, header_by_number-fixture,
}
use o2ul_portal.Wallet.Defaults.{
  Embedded, WalletParts, default_guard, default_prover, default_verifiers, load_header_rpc,
  new_default_service_with_profile, new_default_service,
}

module _ (wire : Wire) (http3_client : RpcDoer) (embedded : Embedded) where
  fixture_rpc-made :
      new_http3_header_rpc wire http3_client fixture_endpoint
        (some (fixture_rpc wire embedded.json_rpc_header).doer)
      ≡ ok (fixture_rpc wire embedded.json_rpc_header)
  unfolding new_http3_header_rpc trim_space is_space_code to_lower lower_rune strip_prefix
  fixture_rpc-made = refl

  -- With the profile of the HTTP/3 fixture the default wallet service is made, whatever the endpoint,
  -- and its light client reads the embedded header of each number from 0 to 1 and from 9 to 21, and
  -- meets every other uint64 as not found.
  pub new_default_service-fixture :
      IsWire wire
      → (raw rpc_url : String) (n : ℕ) → trim_space (trim_space raw) ≡ "ethapi-http3-fixture"
      → n < 2 ^ 64
      → (parts : WalletParts) × (new_default_service wire http3_client embedded raw rpc_url
          ≡ ok parts)
        × (parts.header_rpc n ≡ (
            if is_fixture n
            then embedded_header wire embedded.json_rpc_header n
            else err (header_not_found n)))
  unfolding new_default_service new_default_service_with_profile load_header_rpc default_guard
      new_guard
  new_default_service-fixture law raw rpc_url n chosen h = (
    record {
      header_rpc = header_by_number wire (fixture_rpc wire embedded.json_rpc_header);
      prover = default_prover;
      guard = record { threshold = pos 2; verifiers = default_verifiers };
    },
    rw chosen (rw fixture_rpc-made refl),
    header_by_number-fixture wire law embedded.json_rpc_header n h,
  )
