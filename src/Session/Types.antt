-- ===== src/Session/Types.antt =====
-- internal/mpc/session/types.go, and the conversions of manager.go between a session and its
-- stored form.
use go_mpc_wallet.Base.{ℕ, ◌+◌, ◌*◌, String, List, Option, Bool, ◌||◌, str_eq}
use go_mpc_wallet.Base.Int.{ℤ}
use go_mpc_wallet.Storage.Types.{SigningSession, minute}

pub record Session : Type 0 where
  pub session_id : String
  pub key_id : String
  pub protocol : String
  pub status : String
  pub threshold : ℕ
  pub total_nodes : ℕ
  pub participating_nodes : List String
  pub current_round : ℕ
  pub total_rounds : ℕ
  pub signature : String
  pub created_at : ℕ
  pub completed_at : Option ℕ
  pub duration_ms : ℤ
  pub expires_at : ℕ

abbrev pub pending : String
pending = "pending"

abbrev pub active : String
active = "active"

abbrev pub completed : String
completed = "completed"

abbrev pub failed : String
failed = "failed"

abbrev pub cancelled : String
cancelled = "cancelled"

abbrev pub timed_out : String
timed_out = "timeout"

-- A duration and times in microseconds.
pub record RoundProgress : Type 0 where
  pub session_id : String
  pub key_id : String
  pub protocol : String
  pub status : String
  pub threshold : ℕ
  pub total_nodes : ℕ
  pub round : ℕ
  pub total_rounds : ℕ
  pub node_ids : List String
  pub note : String
  pub duration : ℤ
  pub updated_at : ℕ
  pub expires_at : ℕ

pub record WalRecord : Type 0 where
  pub sequence : ℕ
  pub session_id : String
  pub round : ℕ
  pub payload : List ℕ
  pub created_at : ℕ

-- The literal `&storage.SigningSession{…}` of CreateSession, CreateKeyGenSession, UpdateSession.
abbrev pub to_storage : Session → SigningSession
to_storage s = record {
  session_id = s.session_id;
  key_id = s.key_id;
  protocol = s.protocol;
  status = s.status;
  threshold = s.threshold;
  total_nodes = s.total_nodes;
  participating_nodes = s.participating_nodes;
  current_round = s.current_round;
  total_rounds = s.total_rounds;
  signature = s.signature;
  created_at = s.created_at;
  completed_at = s.completed_at;
  duration_ms = s.duration_ms;
}

-- Five minutes, whatever the timeout of the manager is.
abbrev pub default_expiry : ℕ
default_expiry = 5 * minute

abbrev pub convert_storage_session : SigningSession → Session
convert_storage_session s = record {
  session_id = s.session_id;
  key_id = s.key_id;
  protocol = s.protocol;
  status = s.status;
  threshold = s.threshold;
  total_nodes = s.total_nodes;
  participating_nodes = s.participating_nodes;
  current_round = s.current_round;
  total_rounds = s.total_rounds;
  signature = s.signature;
  created_at = s.created_at;
  completed_at = s.completed_at;
  duration_ms = s.duration_ms;
  expires_at = s.created_at + default_expiry;
}

-- `Pending` or `Active`: the states from which a node may join, and key generation may complete.
abbrev pub is_open : String → Bool
is_open s = str_eq s pending || str_eq s active
