-- ===== src/Protocol/Types.antt =====
-- internal/mpc/protocol/types.go
use go_mpc_wallet.Base.{ℕ, String, List}

pub record KeyGenRequest : Type 0 where
  pub key_id : String
  pub algorithm : String
  pub curve : String
  pub threshold : ℕ
  pub total_nodes : ℕ
  pub node_ids : List String
