-- ===== src/Protocol/Supported.antt =====
-- grpc/server.go, inferProtocolForDKG, with the checks of the engine that it names.
use go_mpc_wallet.Base.{String, Bool, ◌||◌, ◌&&◌, str_eq, if◌then◌else◌}
use go_mpc_wallet.Storage.World.{Outcome}
use go_mpc_wallet.Signing.Protocol.{lower_eq}
use go_mpc_wallet.Protocol.Types.{KeyGenRequest}
use go_mpc_wallet.Protocol.Requests.{validate_gg18, validate_frost}
use go_mpc_wallet.Rpc.Tasks.{infer_protocol_for_dkg}

-- The check of the engine that is registered under the inferred name.
abbrev checked_by : String → KeyGenRequest → Outcome (Unit {0})
checked_by name req = if str_eq name "frost" then validate_frost req else validate_gg18 req

unfoldable pub checked : KeyGenRequest → Outcome (Unit {0})
checked req = checked_by (infer_protocol_for_dkg req.algorithm req.curve) req

abbrev frost_named : KeyGenRequest → Bool
frost_named req =
    (lower_eq req.algorithm "eddsa" || lower_eq req.algorithm "schnorr")
    && (lower_eq req.curve "ed25519" || lower_eq req.curve "secp256k1")
