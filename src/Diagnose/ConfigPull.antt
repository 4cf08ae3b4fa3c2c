-- ===== src/Diagnose/ConfigPull.antt =====
-- src/slidko/diagnose/config_pull.py: MSP v1 read requests, for the allowlisted commands only.
use slidko.Prelude.{ℕ, ◌<◌, String, Option, none, some, List, [], ◌∷◌, ◌==◌, if◌then◌else◌}
use Prim.Native.Nat.{bit_xor}
use slidko.Result.{Result, ok, err, product_boundary_error}
pub mod Laws

pub data MspReadCommand : Type 0 where
  api_version fc_variant fc_version board_info build_info feature_config rx_config cf_serial_config
        rx_map osd_config vtx_config status analog battery_state uid :
      MspReadCommand

unfoldable pub command_id : MspReadCommand → ℕ
command_id api_version = 1
command_id fc_variant = 2
command_id fc_version = 3
command_id board_info = 4
command_id build_info = 5
command_id feature_config = 36
command_id rx_config = 44
command_id cf_serial_config = 54
command_id rx_map = 64
command_id osd_config = 84
command_id vtx_config = 88
command_id status = 101
command_id analog = 110
command_id battery_state = 130
command_id uid = 160

unfoldable pub command_name : MspReadCommand → String
command_name api_version = "API_VERSION"
command_name fc_variant = "FC_VARIANT"
command_name fc_version = "FC_VERSION"
command_name board_info = "BOARD_INFO"
command_name build_info = "BUILD_INFO"
command_name feature_config = "FEATURE_CONFIG"
command_name rx_config = "RX_CONFIG"
command_name cf_serial_config = "CF_SERIAL_CONFIG"
command_name rx_map = "RX_MAP"
command_name osd_config = "OSD_CONFIG"
command_name vtx_config = "VTX_CONFIG"
command_name status = "STATUS"
command_name analog = "ANALOG"
command_name battery_state = "BATTERY_STATE"
command_name uid = "UID"

abbrev pub allowlist : List MspReadCommand
allowlist =
    api_version ∷ fc_variant ∷ fc_version ∷ board_info ∷ build_info ∷ feature_config ∷ rx_config
    ∷ cf_serial_config ∷ rx_map ∷ osd_config ∷ vtx_config ∷ status ∷ analog ∷ battery_state ∷ uid
    ∷ []

-- `MspReadCommand(command)`: the member of that value, or none (a `ValueError`).
unfoldable pub find_command : ℕ → List MspReadCommand → Option MspReadCommand
find_command command [] = none
find_command command (m ∷ ms) = if command_id m == command then some m else find_command command ms

abbrev request_of : ℕ → Option MspReadCommand → Result (List ℕ)
request_of command none = err (product_boundary_error command)
request_of command (some _) =
    let size : ℕ = 0 in ok (b'$' ∷ b'M' ∷ b'<' ∷ size ∷ command ∷ bit_xor size command ∷ [])

unfoldable pub build_read_request : ℕ → Result (List ℕ)
unfolding find_command
build_read_request command = request_of command (find_command command allowlist)
