-- ===== src/Wallet/Prover.antt =====
-- Choice of a proof backend (pkg/proverclient/client.go). The backends are parameters; `none`
-- stands for a nil interface.
pub mod Backends
use o2ul_portal.Common.{
  String, Bool, true, false, not, ◌||◌, Option, none, some, ◌==◌, is_empty, if◌then◌else◌, Result,
  ok, err, Error, message, no_proof_backend, unpaired_device, fail_if, ◌>>=◌, ◌>>◌,
}

-- A byte slice, as the text that it encodes.
abbrev pub Bytes : Type 0
Bytes = String

pub record Request : Type 0 where
  pub circuit_id : String
  pub witness : Bytes
  pub paired_device_id : String

abbrev pub Mode : Type 0
Mode = String

abbrev pub mode_local : Mode
mode_local = "local"

abbrev pub mode_delegated : Mode
mode_delegated = "delegated"

abbrev pub mode_auto : Mode
mode_auto = "auto"

abbrev pub LocalProver : Type 0
LocalProver = String → Bytes → Result Bytes

abbrev pub DelegatedProver : Type 0
DelegatedProver = String → String → Bytes → Result Bytes

abbrev pub PairingRegistry : Type 0
PairingRegistry = String → Bool

pub record Client : Type 0 where
  pub local : Option LocalProver
  pub delegate : Option DelegatedProver
  pub pairs : Option PairingRegistry

abbrev is_paired : Option PairingRegistry → String → Bool
is_paired none device = false
is_paired (some pairs) device = pairs device

unfoldable pub generate_delegated : Client → Request → Result Bytes
generate_delegated c req = elim (c.delegate) [
  | none ↦ err no_proof_backend
  | some delegate ↦
      if req.paired_device_id == "" || not (is_paired c.pairs req.paired_device_id)
      then err unpaired_device
      else delegate req.paired_device_id req.circuit_id req.witness
]

unfoldable pub generate_local : Client → Request → Result Bytes
generate_local c req = elim (c.local) [
  | none ↦ err no_proof_backend
  | some local ↦ local req.circuit_id req.witness
]

-- `ModeAuto`: a local failure of any kind falls back to the paired device.
unfoldable pub generate_auto : Client → Request → Result Bytes
generate_auto c req = elim (c.local) [
  | none ↦ generate_delegated c req
  | some local ↦ elim (local req.circuit_id req.witness) [
    | ok proof ↦ ok proof
    | err e ↦ generate_delegated c req
  ]
]

-- the `switch` of GenerateProof
unfoldable pub generate_by : Client → Mode → Request → Result Bytes
generate_by c mode req =
    if mode == mode_local
    then generate_local c req
    else if mode == mode_delegated
    then generate_delegated c req
    else if mode == mode_auto
    then generate_auto c req
    else err (message "invalid mode")

unfoldable pub generate_proof : Client → Mode → Request → Result Bytes
generate_proof c mode req = do
  fail_if (req.circuit_id == "") (message "circuit id is required")
  fail_if (is_empty req.witness) (message "witness is required")
  generate_by c mode req
