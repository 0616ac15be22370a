-- ===== src/Storage/Types.antt =====
-- internal/mpc/storage/interface.go: the records of the stores. A time is the number of
-- microseconds since an epoch, with 0 for Go's zero time: the columns of type timestamptz keep no
-- more, and what Go's clock, and the JSON text in Redis, have below a microsecond is left out. A pointer to a time is an option. Counts,
-- thresholds and rounds are `int` in Go; none of the code modelled makes one negative.
use go_mpc_wallet.Base.{ℕ, String, List, Option, Dict, ◌*◌}
use go_mpc_wallet.Base.Int.{ℤ}

pub record KeyMetadata : Type 0 where
  pub key_id : String
  pub public_key : String
  pub algorithm : String
  pub curve : String
  pub threshold : ℕ
  pub total_nodes : ℕ
  pub chain_type : String
  pub address : String
  pub status : String
  pub description : String
  pub tags : Dict String
  pub created_at : ℕ
  pub updated_at : ℕ
  pub deletion_date : Option ℕ

-- The values of `metadata` are of any JSON type, which the code never looks into: their texts.
pub record NodeInfo : Type 0 where
  pub node_id : String
  pub node_type : String
  pub endpoint : String
  pub public_key : String
  pub status : String
  pub capabilities : List String
  pub metadata : Dict String
  pub registered_at : ℕ
  pub last_heartbeat : Option ℕ

pub record SigningSession : Type 0 where
  pub session_id : String
  pub key_id : String
  pub protocol : String
  pub status : String
  pub threshold : ℕ
  pub total_nodes : ℕ
  pub participating_nodes : List String
  pub current_round : ℕ
  pub total_rounds : ℕ
  pub signature : String
  pub created_at : ℕ
  pub completed_at : Option ℕ
  pub duration_ms : ℤ

pub record KeyFilter : Type 0 where
  pub chain_type : String
  pub status : String
  pub tag_key : String
  pub tag_value : String
  pub limit : ℕ
  pub offset : ℕ

pub record NodeFilter : Type 0 where
  pub node_type : String
  pub status : String
  pub limit : ℕ
  pub offset : ℕ

-- Durations, in microseconds.
abbrev pub millisecond : ℕ
millisecond = 1000

abbrev pub second : ℕ
second = 1000 * millisecond

abbrev pub minute : ℕ
minute = 60 * second
