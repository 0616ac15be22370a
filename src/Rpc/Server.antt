-- ===== src/Rpc/Server.antt =====
-- grpc/server.go: the handlers StartDKG, StartSign, SubmitSignatureShare with handleProtocolMessage, and
-- Heartbeat. A handler answers, and leaves the server with a goroutine more or with none.
use go_mpc_wallet.Base.{
  zero, suc, ◌+◌, ◌-◌, String, Bool, true, false, ◌||◌, ◌&&◌, List, [], ◌∷◌, none, some, length,
  str_eq, ltb, ◌==◌, if◌then◌else◌,
}
use go_mpc_wallet.Base.Int.{ℤ, pos, negsuc}
use Prim.Native.Char.{code}
use Prim.Native.Nat.{◌^◌}
use go_mpc_wallet.Storage.World.{Redis, World, Outcome, ok, err, wrap}
use go_mpc_wallet.Session.Types.{Session}
use go_mpc_wallet.Session.Manager.{get_session, complete_keygen_session, contains}
use go_mpc_wallet.Signing.Types.{StartSign}
use go_mpc_wallet.Signing.Protocol.{lower_code}
use go_mpc_wallet.Node.Consul.{trim_prefix}
use go_mpc_wallet.Rpc.Types.{
  StartDkg, Started, ShareRequest, ShareResponse, Engines, Config, keygen_task, auto_task,
  sign_task, Server, HeartbeatResponse, session_or_key,
}
use go_mpc_wallet.Rpc.Tasks.{engine_lower, engine_exact}

-- `strings.HasPrefix(strings.ToLower(s), p)`
unfoldable pub has_lower_prefix : String → String → Bool
has_lower_prefix String.[] s = true
has_lower_prefix (String.◌∷◌ c p) String.[] = false
has_lower_prefix (String.◌∷◌ c p) (String.◌∷◌ d s) =
    (lower_code (code d) == code c) && has_lower_prefix p s

abbrev is_empty : {A : Type 0} → List A → Bool
is_empty [] = true
is_empty (_ ∷ _) = false

-- `req.Round + 1` of an int32.
abbrev next_round : ℤ → ℤ
next_round (pos n) = if n == 2 ^ 31 - 1 then negsuc (2 ^ 31 - 1) else pos (n + 1)
next_round (negsuc zero) = pos 0
next_round (negsuc (suc n)) = negsuc n

abbrev pub is_minus_one : ℤ → Bool
is_minus_one (pos _) = false
is_minus_one (negsuc n) = n == 0

-- The guards of StartSign: at least the threshold and at most the total number of nodes, where
-- these are given.
unfoldable pub too_few : StartSign → Bool
too_few req = ltb 0 req.threshold && ltb (length req.node_ids) req.threshold

unfoldable pub too_many : StartSign → Bool
too_many req = ltb 0 req.total_nodes && ltb req.total_nodes (length req.node_ids)

unfoldable pub lacks_parameters : Session → Bool
lacks_parameters sess =
    is_empty sess.participating_nodes || ((sess.threshold == 0) || (sess.total_nodes == 0))

abbrev pub answer : Bool → String → Started
answer b note = record { started = b; note = note }

module _ {R : Redis} {E : Engines R} (c : Config E) where
  unfoldable pub start_dkg : StartDkg → Server E → Started × Server E
  start_dkg req s =
      let id = session_or_key req.session_id req.key_id in
      if contains id s.dkg_once then (answer true "DKG already started", s) else (
        answer true "DKG started in background",
        record s { dkg_once = id ∷ s.dkg_once; tasks = keygen_task req ∷ s.tasks },
      )

  unfoldable pub start_sign : StartSign → Server E → Started × Server E
  start_sign req s =
      let id = session_or_key req.session_id req.key_id in
      if too_few req
      then (answer false "insufficient node_ids", s)
      else (if too_many req
          then (answer false "too many node_ids", s)
          else (if contains id s.sign_once then (answer true "Signing already started", s) else (
            answer true "Signing started in background",
            record s { sign_once = id ∷ s.sign_once; tasks = sign_task req ∷ s.tasks },
          )))

  -- The start on a message: once for a session that has nodes, a threshold and a total.
  unfoldable pub auto_start : String → Session → Server E → Server E
  auto_start id sess s =
      if lacks_parameters sess
      then s
      else (if contains id s.dkg_once
          then s
          else record s { dkg_once = id ∷ s.dkg_once; tasks = auto_task id sess ∷ s.tasks })

  abbrev in_world : {A : Type 0} → Server E → Outcome A × World R → Outcome A × Server E
  in_world s r = (r.0, record s { world = r.1 })

  abbrev in_engine : {A : Type 0} → Server E → Outcome A × E.Local → Outcome A × Server E
  in_engine s r = (r.0, record s { inner = r.1 })

  abbrev wrap_error : {A : Type 0} → String → Outcome A → Outcome A
  wrap_error text (ok a) = ok a
  wrap_error text (err e) = err (wrap text e)

  abbrev wrapped : {A B : Type 0} → String → Outcome A × B → Outcome A × B
  wrapped text r = (wrap_error text r.0, r.1)

  abbrev to_keygen :
      String → Session → String → String → Bool → Server E → Outcome (Unit {0}) × Server E
  to_keygen id sess from share broadcast s =
      let t = auto_start id sess s in
      wrapped "failed to process keygen message" (
        in_engine t
          (E.process_keygen (engine_lower c sess.protocol) id from share broadcast t.inner))

  -- A message of key generation: one of the two control messages, or one of the protocol.
  unfoldable pub keygen_message :
      String → Session → String → String → Bool → Server E → Outcome (Unit {0}) × Server E
  keygen_message id sess from share broadcast s =
      if str_eq share "DKG_START" then (ok tt, s) else elim (trim_prefix "DKG_COMPLETE:" share) [
        | some public_key ↦
            wrapped "failed to complete keygen session"
              (in_world s (complete_keygen_session id public_key s.world))
        | none ↦ to_keygen id sess from share broadcast s
      ]

  abbrev to_signing :
      String → Session → String → String → Bool → Server E → Outcome (Unit {0}) × Server E
  to_signing id sess from share broadcast s = wrapped "failed to process signing message" (
      in_engine s
        (E.process_signing (engine_exact c sess.protocol) id from share broadcast s.inner))

  unfoldable pub is_keygen : String → Session → Bool
  is_keygen id sess = str_eq id sess.key_id || has_lower_prefix "key-" id

  unfoldable pub handle_protocol_message :
      String → String → String → ℤ → Server E → Outcome (Unit {0}) × Server E
  handle_protocol_message id from share round s =
      let (r, w) = get_session id s.world in
      let t = record s { world = w } in
      elim r [
        | err e ↦ (err (wrap "failed to get session for protocol message" e), t)
        | ok sess ↦
            if is_keygen id sess
            then keygen_message id sess from share (is_minus_one round) t
            else to_signing id sess from share (is_minus_one round) t
      ]

  abbrev share_response : ℤ → Outcome (Unit {0}) → ShareResponse
  share_response round (ok _) = record {
    accepted = true;
    failure = none;
    next_round = next_round round;
  }
  share_response round (err e) = record { accepted = false; failure = some e; next_round = round }

  unfoldable pub submit_signature_share : ShareRequest → Server E → ShareResponse × Server E
  submit_signature_share req s =
      let (r, t) = handle_protocol_message req.session_id req.node_id req.share_data req.round s in
      (share_response req.round r, t)

  unfoldable pub heartbeat : Server E → HeartbeatResponse
  heartbeat s = record { alive = true; coordinator_id = c.node_id; received_at = s.world.now }
