-- ===== src/Coordinator/Service.antt =====
-- coordinator/service.go: CreateSigningSession, CreateDKGSession and NotifyParticipantsForDKG. The goroutine
-- that calls the leader's StartDKG, and only logs the answer, is the request that it sends.
use go_mpc_wallet.Base.{ℕ, String, List, [], ◌∷◌, map, length, ltb, ◌==◌, if◌then◌else◌, str_eq}
use go_mpc_wallet.Base.Sorting.{sort}
use go_mpc_wallet.Storage.Types.{NodeInfo}
use go_mpc_wallet.Storage.World.{
  Redis, M, Outcome, ok, err, message, wrap, fail, pure, wrapping, ◌>>=◌, ◌>>◌,
}
use go_mpc_wallet.Session.Types.{Session}
use go_mpc_wallet.Session.Manager.{
  Manager, create_session, create_key_gen_session, cancel_session, ignoring_errors,
}
use go_mpc_wallet.Key.Service.{get_key}
use go_mpc_wallet.Node.Types.{participant}
use go_mpc_wallet.Node.Discovery.{Finder, discover_nodes}
use go_mpc_wallet.Protocol.Keygen.{text_before}
use go_mpc_wallet.Rpc.Types.{StartDkg}

pub record CreateSessionRequest : Type 0 where
  pub key_id : String
  pub message : List ℕ
  pub protocol : String
  pub timeout : ℕ

pub record CreateDkgSessionRequest : Type 0 where
  pub key_id : String
  pub algorithm : String
  pub curve : String
  pub protocol : String
  pub threshold : ℕ
  pub total_nodes : ℕ
  pub node_ids : List String

abbrev pub protocol_or : String → String → String
protocol_or default p = if str_eq p "" then default else p

abbrev pub start_request : CreateDkgSessionRequest → List String → StartDkg
start_request req ids = record {
  session_id = req.key_id;
  key_id = req.key_id;
  algorithm = req.algorithm;
  curve = req.curve;
  threshold = req.threshold;
  total_nodes = req.total_nodes;
  node_ids = ids;
}

-- What CreateDKGSession leaves running: a StartDKG to the leader.
pub record Notice : Type 0 where
  pub leader : String
  pub request : StartDkg

-- The first of the nodes is the leader.
unfoldable pub notify_participants : CreateDkgSessionRequest → List String → Outcome Notice
notify_participants req [] = err (message "no participants to notify")
notify_participants req (leader ∷ rest) =
    ok (record { leader = leader; request = start_request req (leader ∷ rest) })

module _ {R : Redis} where
  -- The fields are copied one by one; the session stands for them.
  unfoldable pub create_signing_session :
      Manager → String → String → CreateSessionRequest → M R Session
  create_signing_session m default uuid req = do
    k ← wrapping "failed to get key" (get_key req.key_id)
    wrapping "failed to create session" (
        create_session m uuid req.key_id (protocol_or default req.protocol) k.threshold
          k.total_nodes)

  abbrev enough : ℕ → List NodeInfo → M R (List String)
  enough total ns =
      if ltb (length ns) total
      then fail (message "insufficient active participants")
      else pure (sort text_before (map (λ n. n.node_id) ns))

  -- The nodes that are asked for, or as many participants as the total, in order.
  unfoldable pub choose_nodes : Finder R → CreateDkgSessionRequest → M R (List String)
  choose_nodes d req =
      if length req.node_ids == 0
      then wrapping "failed to discover participants"
          (discover_nodes d participant "active" req.total_nodes)
        >>= enough req.total_nodes
      else pure req.node_ids

  abbrev pub announce : Session → Outcome Notice → M R (Session × Notice)
  announce s (ok n) = pure (s, n)
  announce s (err e) =
      ignoring_errors (cancel_session s.session_id) >> fail (wrap "failed to notify participants" e)

  unfoldable pub create_dkg_session :
      Manager → Finder R → String → CreateDkgSessionRequest → M R (Session × Notice)
  create_dkg_session m d default req = do
    ids ← choose_nodes d req
    s ← wrapping "failed to create DKG session" (
        create_key_gen_session m req.key_id (protocol_or default req.protocol) req.threshold
          req.total_nodes ids)
    announce s (notify_participants req ids)
