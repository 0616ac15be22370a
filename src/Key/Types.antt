-- ===== src/Key/Types.antt =====
-- internal/mpc/key/types.go. The package's `KeyMetadata` has the fields of the stored record, and
-- the service copies them one by one; one record stands for both.
use go_mpc_wallet.Base.{ℕ, String, List, Dict}
use go_mpc_wallet.Storage.World.{Outcome}

pub record CreateKeyRequest : Type 0 where
  pub key_id : String
  pub algorithm : String
  pub curve : String
  pub threshold : ℕ
  pub total_nodes : ℕ
  pub chain_type : String
  pub description : String
  pub tags : Dict String

-- The part of `protocol.KeyGenResponse` that is read: the shares by node, and the public key.
pub record KeyGenResponse : Type 0 where
  pub key_shares : Dict (List ℕ)
  pub public_key : String

-- `chain.Adapter` for the two chains: the address of a public key.
pub record Adapters : Type 0 where
  pub bitcoin : List ℕ → Outcome String
  pub ethereum : List ℕ → Outcome String
