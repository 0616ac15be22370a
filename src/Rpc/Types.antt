-- ===== src/Rpc/Types.antt =====
-- grpc/server.go: the state of a GRPCServer, and the requests and answers. A text of bytes, such as
-- `ShareData`, is a String with the character of its number for each byte.
use go_mpc_wallet.Base.{ℕ, String, Bool, List, Option, str_eq, if◌then◌else◌}
use go_mpc_wallet.Base.Int.{ℤ}
use go_mpc_wallet.Storage.World.{Redis, World, Outcome, Error}
use go_mpc_wallet.Session.Types.{Session}
use go_mpc_wallet.Key.Types.{KeyGenResponse}
use go_mpc_wallet.Signing.Types.{StartSign, Signature}
use go_mpc_wallet.Signing.Signer.{EngineRequest}
use go_mpc_wallet.Protocol.Types.{KeyGenRequest}
use go_mpc_wallet.Protocol.Registry.{ProtocolRegistry}

-- `pb.StartDKGRequest`
pub record StartDkg : Type 0 where
  pub session_id : String
  pub key_id : String
  pub algorithm : String
  pub curve : String
  pub threshold : ℕ
  pub total_nodes : ℕ
  pub node_ids : List String

-- `pb.StartDKGResponse`, `pb.StartSignResponse`
pub record Started : Type 0 where
  pub started : Bool
  pub note : String

-- `pb.ShareRequest`, without its time.
pub record ShareRequest : Type 0 where
  pub session_id : String
  pub node_id : String
  pub share_data : String
  pub round : ℤ

-- `pb.ShareResponse`: the message is the text of the error, or "share accepted".
pub record ShareResponse : Type 0 where
  pub accepted : Bool
  pub failure : Option Error
  pub next_round : ℤ

-- The engines of the node and its store of key shares, with their state `Local`. The calls of an
-- engine may run for minutes and may fail. `Ref` names an engine.
pub record Engines (R : Redis) : Type 1 where
  pub Local : Type 0
  pub Ref : Type 0
  pub engine_keygen :
      Ref → KeyGenRequest → Local → World R → Outcome KeyGenResponse × Local × World R
  pub engine_sign :
      Ref → String → EngineRequest → Local → World R → Outcome Signature × Local × World R
  pub process_keygen : Ref → String → String → String → Bool → Local → Outcome (Unit {0}) × Local
  pub process_signing : Ref → String → String → String → Bool → Local → Outcome (Unit {0}) × Local
  pub keep_share : String → String → List ℕ → Local → Outcome (Unit {0}) × Local

-- What NewGRPCServerWithRegistry is given.
pub record Config {R : Redis} (E : Engines R) : Type 0 where
  pub node_id : String
  pub default_engine : E.Ref
  pub registry : Option (ProtocolRegistry E.Ref)
  pub has_storage : Bool

-- The goroutines that the handlers start: by StartDKG, by a message of key generation, by StartSign.
pub data Task : Type 0 where
  keygen_task : StartDkg → Task
  auto_task : String → Session → Task
  sign_task : StartSign → Task

-- `dkg_once` and `sign_once`: the sessions whose sync.Once is spent. `tasks`: the goroutines that
-- have been started and have not yet run.
pub record Server {R : Redis} (E : Engines R) : Type 0 where
  pub world : World R
  pub inner : E.Local
  pub dkg_once : List String
  pub sign_once : List String
  pub tasks : List Task

abbrev pub session_or_key : String → String → String
session_or_key session_id key_id = if str_eq session_id "" then key_id else session_id

-- `pb.HeartbeatResponse`, with its time a number.
pub record HeartbeatResponse : Type 0 where
  pub alive : Bool
  pub coordinator_id : String
  pub received_at : ℕ
