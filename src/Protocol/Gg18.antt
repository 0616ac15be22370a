-- ===== src/Protocol/Gg18.antt =====
-- protocol/gg18.go and protocol/gg20.go: key generation and signing of the ECDSA engines. The runs of
-- tss-lib by the party manager, encoding/gob and the store of the key files are parameters.
use go_mpc_wallet.Base.{
  ℕ, String, Bool, true, false, List, [], ◌∷◌, Option, none, some, Dict, lookup, insert,
  if◌then◌else◌, str_eq, ◌+++◌,
}
use go_mpc_wallet.Storage.World.{Outcome, message}
use go_mpc_wallet.Storage.Types.{minute}
use go_mpc_wallet.Node.Discovery.{decimal}
use go_mpc_wallet.Signing.Types.{Signature, PublicKey}
use go_mpc_wallet.Signing.Signer.{EngineRequest}
use go_mpc_wallet.Protocol.Types.{KeyGenRequest}
use go_mpc_wallet.Protocol.Requests.{
  validate_gg18, validate_sign_request, normalize_node_ids, resolve_message_payload,
}
use go_mpc_wallet.Protocol.Encoding.{
  KeyShare, SaveData, SignatureData, convert_tss_key_data, convert_tss_signature, compressed_key,
  public_key_of,
}
use go_mpc_wallet.Protocol.Run.{returns, Run, give, refuse, ◌>>=◌, ◌>>◌, checking, converting}
use go_mpc_wallet.Base.{◌*◌}

pub record SigningOptions : Type 0 where
  pub limit : ℕ
  pub identifiable_abort : Bool
  pub protocol_name : String

abbrev pub default_signing_options : SigningOptions
default_signing_options = record {
  limit = 2 * minute;
  identifiable_abort = false;
  protocol_name = "GG18";
}

abbrev pub gg20_signing_options : SigningOptions
gg20_signing_options = record {
  limit = 1 * minute;
  identifiable_abort = true;
  protocol_name = "GG20";
}

abbrev pub frost_signing_options : SigningOptions
frost_signing_options = record {
  limit = 1 * minute;
  identifiable_abort = false;
  protocol_name = "FROST";
}

-- What an engine is built on, with its state `T`: executeKeygen and executeSigning of the party
-- manager, gob's encoding and decoding, and StoreKeyData and GetKeyData of the store. `restart` is
-- what a new process finds: the files of the store, and a party manager with nothing in its maps.
pub record Tss : Type 1 where
  pub T : Type 0
  pub execute_keygen : String → List String → ℕ → String → T → Outcome SaveData × T
  pub execute_signing :
      String
      → String
      → List ℕ
      → List String
      → String
      → SaveData
      → SigningOptions
      → T
      → Outcome (Option SignatureData) × T
  pub encode : SaveData → Outcome (List ℕ)
  pub decode : List ℕ → Outcome SaveData
  pub keep_key_data : String → String → List ℕ → T → Outcome (Unit {0}) × T
  pub read_key_data : String → String → T → Outcome (List ℕ) × T
  pub restart : T → T

-- `gg18KeyRecord`
pub record KeyRecord : Type 0 where
  pub key_data : Option SaveData
  pub public_key : PublicKey
  pub threshold : ℕ
  pub total_nodes : ℕ
  pub node_ids : List String

-- `protocol.KeyGenResponse` and `protocol.SignResponse`
pub record KeyGenReply : Type 0 where
  pub key_shares : Dict KeyShare
  pub public_key : PublicKey

pub record SignReply : Type 0 where
  pub signature : Signature
  pub public_key : PublicKey

-- The records of a GG18Protocol, and the state of the rest.
pub record Memory (E : Tss) : Type 0 where
  pub key_records : Dict KeyRecord
  pub below : E.T

abbrev pub key_or_drawn : ℕ → String → String
key_or_drawn nano id = if str_eq id "" then ◌+++◌ "gg18-key-key-" (decimal 19 nano) else id

-- The record of a key data read from the storage: the key of its point, and zeros.
abbrev pub loaded_record : SaveData → ℕ × ℕ → KeyRecord
loaded_record d (x, y) = record {
  key_data = some d;
  public_key = public_key_of (compressed_key x y);
  threshold = 0;
  total_nodes = 0;
  node_ids = [];
}

module _ {E : Tss} where
  abbrev pub calling : {A : Type 0} → String → (E.T → Outcome A × E.T) → Run (Memory E) A
  calling text f s = let (r, t) = f s.below in checking text r (record s { below = t })

  unfoldable pub save_key_record : String → KeyRecord → Run (Memory E) (Unit {0})
  save_key_record id r s = (returns tt, record s { key_records = insert id r s.key_records })

  -- The storage is an option; without it nothing is stored.
  unfoldable pub persist : Bool → String → String → SaveData → Run (Memory E) (Unit {0})
  persist false id this d = give tt
  persist true id this d = do
    bytes ← checking "failed to serialize LocalPartySaveData" (E.encode d)
    calling "failed to store LocalPartySaveData" (E.keep_key_data id this bytes)

  -- The last part of GenerateKeyShare: the record, the storage, and the answer.
  unfoldable pub finish_generation :
      Bool
      → String
      → String
      → KeyGenRequest
      → List String
      → SaveData
      → KeyShare × PublicKey
      → Run (Memory E) KeyGenReply
  finish_generation has_storage this id req ids d made = do
    save_key_record id (record {
      key_data = some d;
      public_key = made.1;
      threshold = req.threshold;
      total_nodes = req.total_nodes;
      node_ids = ids;
    })
    persist has_storage id this d
    give (record { key_shares = (this, made.0) ∷ []; public_key = made.1 })

  -- GG18Protocol.GenerateKeyShare at time `nano`, which GG20 takes over.
  unfoldable pub generate_key_share : Bool → String → ℕ → KeyGenRequest → Run (Memory E) KeyGenReply
  generate_key_share has_storage this nano req = do
    checking "invalid key generation request" (validate_gg18 req)
    ids ← checking "invalid node IDs" (normalize_node_ids req.node_ids req.total_nodes)
    d ←
        calling "execute tss-lib keygen"
          (E.execute_keygen (key_or_drawn nano req.key_id) ids req.threshold this)
    made ←
        converting "convert tss key data"
          (convert_tss_key_data (key_or_drawn nano req.key_id) d this)
    finish_generation has_storage this (key_or_drawn nano req.key_id) req ids d made

  abbrev keep_record : String → KeyRecord → Run (Memory E) KeyRecord
  keep_record id r = save_key_record id r >> give r

  abbrev load_point : String → SaveData → Option (ℕ × ℕ) → Run (Memory E) KeyRecord
  load_point id d none = refuse (message "failed to extract public key from LocalPartySaveData")
  load_point id d (some point) = keep_record id (loaded_record d point)

  unfoldable pub load_record : Bool → String → String → Run (Memory E) KeyRecord
  load_record false id this = refuse (message (◌+++◌ "key " (◌+++◌ id " not found")))
  load_record true id this = do
    bytes ← calling "key not found in memory or storage" (E.read_key_data id this)
    d ← checking "failed to deserialize LocalPartySaveData" (E.decode bytes)
    load_point id d d.public_point

  abbrev record_or : Option KeyRecord → Run (Memory E) KeyRecord → Run (Memory E) KeyRecord
  record_or (some r) load = give r
  record_or none load = load

  abbrev data_of : KeyRecord → Option SaveData → Run (Memory E) SaveData
  data_of r none = refuse (message "key data not found in record")
  data_of r (some d) = give d

  -- What follows once the record is found; the engines differ in the options and in the text.
  unfoldable pub sign_with_record :
      SigningOptions
      → String
      → String
      → String
      → EngineRequest
      → KeyRecord
      → Run (Memory E) SignReply
  sign_with_record options text this session req r = do
    d ← data_of r r.key_data
    msg ← checking "resolve message payload" (resolve_message_payload req)
    raw ← calling text (E.execute_signing session req.key_id msg req.node_ids this d options)
    sig ← checking "convert tss signature" (convert_tss_signature raw)
    give (record { signature = sig; public_key = r.public_key })

  -- GG18Protocol.ThresholdSign: the record is loaded from the storage if it is not in memory.
  unfoldable pub threshold_sign_gg18 :
      Bool → String → String → EngineRequest → Run (Memory E) SignReply
  threshold_sign_gg18 has_storage this session req s =
      (checking "invalid sign request" (validate_sign_request req)
          >> (record_or (lookup req.key_id s.key_records) (load_record has_storage req.key_id this)
              >>= λ r.
                  sign_with_record default_signing_options "execute tss-lib signing" this session
                    req r))
        s

  -- GG20Protocol.ThresholdSign: the record has to be in memory.
  unfoldable pub threshold_sign_gg20 : String → String → EngineRequest → Run (Memory E) SignReply
  threshold_sign_gg20 this session req s =
      (checking "invalid sign request" (validate_sign_request req)
          >> (record_or (lookup req.key_id s.key_records)
                (refuse (message (◌+++◌ "key " (◌+++◌ req.key_id " not found"))))
              >>= λ r.
                  sign_with_record gg20_signing_options "execute GG20 signing" this session req r))
        s
