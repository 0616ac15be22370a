-- ===== src/Signing/Types.antt =====
-- internal/mpc/signing/types.go. A time in a response is a number, in place of its RFC 3339 text.
use go_mpc_wallet.Base.{ℕ, String, List, Bool}

pub record SignRequest : Type 0 where
  pub key_id : String
  pub message : List ℕ
  pub message_hex : String
  pub chain_type : String

pub record SignResponse : Type 0 where
  pub signature : String
  pub key_id : String
  pub public_key : String
  pub message : String
  pub chain_type : String
  pub session_id : String
  pub signed_at : ℕ
  pub participating_nodes : List String

pub record BatchSignResponse : Type 0 where
  pub signatures : List SignResponse
  pub total : ℕ
  pub success : ℕ
  pub failed : ℕ

pub record VerifyRequest : Type 0 where
  pub signature : String
  pub message : List ℕ
  pub message_hex : String
  pub public_key : String
  pub chain_type : String

pub record VerifyResponse : Type 0 where
  pub valid : Bool
  pub public_key : String
  pub address : String
  pub verified_at : ℕ

-- `protocol.Signature` and `protocol.PublicKey`.
pub record Signature : Type 0 where
  pub bytes : List ℕ
  pub hex : String
  pub r : List ℕ
  pub s : List ℕ

pub record PublicKey : Type 0 where
  pub bytes : List ℕ
  pub hex : String

-- `pb.StartSignRequest`
pub record StartSign : Type 0 where
  pub session_id : String
  pub key_id : String
  pub message : List ℕ
  pub message_hex : String
  pub protocol : String
  pub threshold : ℕ
  pub total_nodes : ℕ
  pub node_ids : List String
