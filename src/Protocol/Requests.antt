-- ===== src/Protocol/Requests.antt =====
-- protocol/gg18.go and protocol/frost.go: the checks of the requests, the names of the nodes, and
-- the bytes of the message.
use go_mpc_wallet.Base.{
  ℕ, zero, suc, ◌≤◌, ◌≡◌, refl, inl, inr, arith, Bool-cases, String, ◌&&◌, not, List, [], ◌∷◌,
  Option, none, some, length, ltb, ◌==◌, if◌then◌else◌, str_eq, ◌+++◌,
}
use go_mpc_wallet.Base.Hex.{decode_string}
use go_mpc_wallet.Storage.World.{Outcome, ok, err, Error, message, wrap, driver}
use go_mpc_wallet.Node.Consul.{trim_prefix}
use go_mpc_wallet.Node.Discovery.{decimal}
use go_mpc_wallet.Signing.Protocol.{lower_eq}
use go_mpc_wallet.Signing.Signer.{EngineRequest}
use go_mpc_wallet.Protocol.Types.{KeyGenRequest}

abbrev number : ℕ → String
number n = decimal 19 n

abbrev count_mismatch : ℕ → ℕ → Error
count_mismatch total given = message (
    ◌+++◌ "node IDs count mismatch: expected "
      (◌+++◌ (number total) (◌+++◌ ", got " (number given))))

-- GG18Protocol.ValidateKeyGenRequest
unfoldable pub validate_gg18 : KeyGenRequest → Outcome (Unit {0})
validate_gg18 req =
    if not (str_eq req.algorithm "ECDSA")
    then err (message (◌+++◌ "unsupported algorithm: " req.algorithm))
    else (if not (str_eq req.curve "secp256k1")
        then err (message (◌+++◌ "unsupported curve: " req.curve))
        else (if ltb req.threshold 2
            then err (message "threshold must be at least 2")
            else (if ltb req.total_nodes req.threshold
                then err (message "total nodes must be at least threshold")
                else (if not (length req.node_ids == 0)
                      && not (length req.node_ids == req.total_nodes)
                    then err (count_mismatch req.total_nodes (length req.node_ids))
                    else ok tt))))

-- FROSTProtocol.ValidateKeyGenRequest
unfoldable pub validate_frost : KeyGenRequest → Outcome (Unit {0})
validate_frost req =
    if not (str_eq req.curve "") && not (lower_eq req.curve "ed25519")
    then (if lower_eq req.curve "secp256k1"
        then err (message "FROST DKG does not support secp256k1 curve")
        else err (message (◌+++◌ "unsupported curve for FROST DKG: " req.curve)))
    else (if not (str_eq req.algorithm "")
          && (not (str_eq req.algorithm "Schnorr") && not (str_eq req.algorithm "EdDSA"))
        then err (message (◌+++◌ "unsupported algorithm for FROST: " req.algorithm))
        else (if ltb req.threshold 2
            then err (message "threshold must be at least 2")
            else (if ltb req.total_nodes req.threshold
                then err (message "total nodes must be at least threshold")
                else ok tt)))

-- GG18Protocol.ValidateSignRequest, and validateSignRequest of FROST.
unfoldable pub validate_sign_request : EngineRequest → Outcome (Unit {0})
validate_sign_request req =
    if str_eq req.key_id ""
    then err (message "key ID is required")
    else (if (length req.message == 0) && str_eq req.message_hex ""
        then err (message "message is required")
        else (if length req.node_ids == 0 then err (message "node IDs are required") else ok tt))

-- `fmt.Sprintf("%02d", n)`
abbrev pub two_digits : ℕ → String
two_digits n = if ltb n 10 then ◌+++◌ "0" (number n) else number n

-- node-01, node-02 and on: `n` names after the first `i`.
unfoldable pub generated : ℕ → ℕ → List String
generated i zero = []
generated i (suc n) = ◌+++◌ "node-" (two_digits (suc i)) ∷ generated (suc i) n

unfoldable pub normalize_node_ids : List String → ℕ → Outcome (List String)
normalize_node_ids ids total =
    if length ids == 0
    then ok (generated 0 total)
    else (if length ids == total then ok ids else err (count_mismatch total (length ids)))

abbrev or_whole : String → Option String → String
or_whole s none = s
or_whole s (some rest) = rest

abbrev decoded_payload : Option (List ℕ) → Outcome (List ℕ)
decoded_payload none = err (wrap "invalid message hex" driver)
decoded_payload (some bytes) = ok bytes

-- `driver` stands for the error of encoding/hex.
unfoldable pub resolve_message_payload : EngineRequest → Outcome (List ℕ)
resolve_message_payload req =
    if ltb 0 (length req.message)
    then ok req.message
    else (if str_eq req.message_hex ""
        then err (message "message payload is empty")
        else decoded_payload
            (decode_string (or_whole req.message_hex (trim_prefix "0x" req.message_hex))))

length-generated : (i n : ℕ) → length (generated i n) ≡ n
unfolding generated
length-generated i zero = refl
length-generated i (suc n) = omega (arith, length-generated (suc i) n)

-- A key generation request that GG18 finds valid has a threshold from 2 to the number of nodes,
-- and normalizeNodeIDs then gives as many nodes as that number.
pub validate_gg18-ok :
    (req : KeyGenRequest)
    → validate_gg18 req ≡ ok tt
    → (ids : List String) × (normalize_node_ids req.node_ids req.total_nodes ≡ ok ids)
      × (2 ≤ req.threshold)
      × (req.threshold ≤ length ids)
      × (length ids ≡ req.total_nodes)
unfolding validate_gg18 normalize_node_ids
validate_gg18-ok req valid = elim (Bool-cases (length req.node_ids == 0)) [
  | inl empty ↦ (
    generated 0 req.total_nodes,
    ground arith,
    ground arith,
    ground (arith, length-generated 0 req.total_nodes),
    length-generated 0 req.total_nodes,
  )
  | inr given ↦ (req.node_ids, ground arith, ground arith, ground arith, ground arith)
]
