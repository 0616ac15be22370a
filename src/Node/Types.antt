-- ===== src/Node/Types.antt =====
-- internal/mpc/discovery/types.go and internal/mpc/node/types.go. A node and the stored record have
-- the same fields, which the code copies one by one; the stored record stands for both.
use go_mpc_wallet.Base.{ℕ, String, List, Dict, Option}
use go_mpc_wallet.Base.Int.{ℤ}

pub record ServiceInfo : Type 0 where
  pub id : String
  pub name : String
  pub address : String
  pub port : ℕ
  pub tags : List String
  pub meta : Dict String
  pub node_type : String

-- What Consul answers: an `api.AgentService`, of which these fields are read.
pub record AgentService : Type 0 where
  pub id : String
  pub service : String
  pub address : String
  pub port : ℕ
  pub tags : List String
  pub meta : Dict String

-- `HealthCheck`: the two checks by name, and the only metric, the age of the heartbeat, here in
-- microseconds.
pub record HealthReport : Type 0 where
  pub node_id : String
  pub status : String
  pub timestamp : ℕ
  pub status_check : String
  pub heartbeat_check : String
  pub heartbeat_age : Option ℤ

abbrev pub active_node : String
active_node = "active"

abbrev pub coordinator : String
coordinator = "coordinator"

abbrev pub participant : String
participant = "participant"
