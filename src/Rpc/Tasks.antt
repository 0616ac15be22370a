-- ===== src/Rpc/Tasks.antt =====
-- grpc/server.go: the goroutines that StartDKG, StartSign and handleProtocolMessage start. Each runs as
-- one step; what others do to the database during the run is what the engine's call does to it.
use go_mpc_wallet.Base.{
  ℕ, String, ◌||◌, ◌&&◌, not, List, [], ◌∷◌, Option, none, some, Dict, length, str_eq, ◌==◌,
  if◌then◌else◌,
}
use go_mpc_wallet.Base.Hex.{decode_string}
use go_mpc_wallet.Storage.World.{Redis, World, Outcome, ok, err}
use go_mpc_wallet.Session.Types.{Session, failed}
use go_mpc_wallet.Session.Manager.{
  get_session, update_session, complete_session, complete_keygen_session,
}
use go_mpc_wallet.Key.Types.{KeyGenResponse}
use go_mpc_wallet.Signing.Types.{StartSign, Signature}
use go_mpc_wallet.Signing.Protocol.{lower_eq}
use go_mpc_wallet.Signing.Signer.{EngineRequest}
use go_mpc_wallet.Protocol.Types.{KeyGenRequest}
use go_mpc_wallet.Protocol.Registry.{get_engine, lookup_lower}
use go_mpc_wallet.Rpc.Types.{
  StartDkg, Engines, Config, Task, keygen_task, auto_task, sign_task, Server, session_or_key,
}

unfoldable pub infer_protocol_for_dkg : String → String → String
infer_protocol_for_dkg algorithm curve =
    if (lower_eq algorithm "eddsa" || lower_eq algorithm "schnorr")
      && (lower_eq curve "ed25519" || lower_eq curve "secp256k1")
    then "frost"
    else "gg20"

abbrev pub dkg_request : StartDkg → KeyGenRequest
dkg_request req = record {
  key_id = req.key_id;
  algorithm = req.algorithm;
  curve = req.curve;
  threshold = req.threshold;
  total_nodes = req.total_nodes;
  node_ids = req.node_ids;
}

-- The parameters of the session: Ed25519 for frost, else ECDSA.
abbrev pub auto_request : Session → KeyGenRequest
auto_request s = record {
  key_id = s.key_id;
  algorithm = if lower_eq s.protocol "frost" then "EdDSA" else "ECDSA";
  curve = if lower_eq s.protocol "frost" then "ed25519" else "secp256k1";
  threshold = s.threshold;
  total_nodes = s.total_nodes;
  node_ids = s.participating_nodes;
}

abbrev pub sign_request : StartSign → List ℕ → EngineRequest
sign_request req msg = record {
  key_id = req.key_id;
  message = msg;
  message_hex = req.message_hex;
  node_ids = req.node_ids;
}

-- The message, or the bytes of its hexadecimal text when it is empty and the text is not.
abbrev pub sign_message : StartSign → Option (List ℕ)
sign_message req =
    if (length req.message == 0) && not (str_eq req.message_hex "")
    then decode_string req.message_hex
    else some req.message

abbrev or_default : {A : Type 0} → A → Option A → A
or_default d none = d
or_default d (some e) = e

abbrev engine_or : {A : Type 0} → A → Outcome A → A
engine_or d (err _) = d
engine_or d (ok e) = e

module _ {R : Redis} where
  -- The session is read, and written back as failed; errors are only logged.
  unfoldable pub mark_failed : String → World R → World R
  mark_failed id w =
      let (r, v) = get_session id w in
      elim r [ err _ ↦ v | ok sess ↦ (update_session (record sess { status = failed }) v).1 ]

  -- What follows ThresholdSign.
  unfoldable pub finish_sign : String → Outcome Signature → World R → World R
  finish_sign id (err _) w = mark_failed id w
  finish_sign id (ok sig) w = if str_eq sig.hex "" then w else (complete_session id sig.hex w).1

module _ {R : Redis} {E : Engines R} (c : Config E) where
  -- The engine of that name in the registry, if there is one; else the default engine.
  abbrev pub engine_named : String → E.Ref
  engine_named name = elim c.registry [
    | none ↦ c.default_engine
    | some r ↦ engine_or c.default_engine (get_engine name r)
  ]

  -- The same for the small letters of a name that is not empty.
  abbrev pub engine_lower : String → E.Ref
  engine_lower name = elim c.registry [
    | none ↦ c.default_engine
    | some r ↦
        if str_eq name ""
        then c.default_engine
        else or_default c.default_engine (lookup_lower name r.protocols)
  ]

  abbrev pub engine_exact : String → E.Ref
  engine_exact name = if str_eq name "" then c.default_engine else engine_named name

  -- The loop that stores the shares; an error is only logged.
  unfoldable pub store_shares : String → Dict (List ℕ) → E.Local → E.Local
  store_shares key_id [] l = l
  store_shares key_id ((node, share) ∷ rest) l =
      store_shares key_id rest (E.keep_share key_id node share l).1

  -- What follows GenerateKeyShare: nothing unless there is a public key.
  unfoldable pub finish_dkg : String → Outcome KeyGenResponse → Server E → Server E
  finish_dkg key_id (err _) s = s
  finish_dkg key_id (ok resp) s = if str_eq resp.public_key "" then s else record s {
    inner = if c.has_storage then store_shares key_id resp.key_shares s.inner else s.inner;
    world = (complete_keygen_session key_id resp.public_key s.world).1;
  }

  unfoldable pub run_dkg : E.Ref → KeyGenRequest → Server E → Server E
  run_dkg engine req s =
      let (r, l, w) = E.engine_keygen engine req s.inner s.world in
      finish_dkg req.key_id r (record s { inner = l; world = w })

  abbrev run_signing : StartSign → List ℕ → Server E → Server E
  run_signing req msg s =
      let id = session_or_key req.session_id req.key_id in
      let (r, l, w) =
        E.engine_sign (engine_exact req.protocol) id (sign_request req msg) s.inner s.world in
      record s { inner = l; world = finish_sign id r w }

  unfoldable pub run_sign : StartSign → Server E → Server E
  run_sign req s = elim (sign_message req) [ none ↦ s | some msg ↦ run_signing req msg s ]

  unfoldable pub run_task : Task → Server E → Server E
  run_task (keygen_task req) s =
      run_dkg (engine_named (infer_protocol_for_dkg req.algorithm req.curve)) (dkg_request req) s
  run_task (auto_task id sess) s = run_dkg (engine_lower sess.protocol) (auto_request sess) s
  run_task (sign_task req) s = run_sign req s
