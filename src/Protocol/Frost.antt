-- ===== src/Protocol/Frost.antt =====
-- protocol/frost.go: key generation and signing of FROST, on Ed25519. The runs of tss-lib by the party
-- manager, its conversions to the standard form of Ed25519, encoding/json and the store of the key
-- files are parameters.
use go_mpc_wallet.Base.{
  ℕ, suc, ◌≡◌, String, Bool, true, false, List, [], ◌∷◌, Option, none, some, Dict, lookup, insert,
  take, drop, length, if◌then◌else◌, str_eq, ◌+++◌,
}
use go_mpc_wallet.Base.Hex.{encode_to_string}
use go_mpc_wallet.Storage.World.{Outcome, ok, err, message, wrap}
use go_mpc_wallet.Node.Discovery.{decimal}
use go_mpc_wallet.Signing.Types.{Signature, PublicKey}
use go_mpc_wallet.Signing.Protocol.{lower_eq}
use go_mpc_wallet.Signing.Signer.{EngineRequest}
use go_mpc_wallet.Protocol.Types.{KeyGenRequest}
use go_mpc_wallet.Protocol.Requests.{
  validate_frost, validate_sign_request, normalize_node_ids, resolve_message_payload, two_digits,
}
use go_mpc_wallet.Protocol.Encoding.{KeyShare, public_key_of}
use go_mpc_wallet.Protocol.Gg18.{KeyGenReply, SignReply, SigningOptions, frost_signing_options}
use go_mpc_wallet.Protocol.Run.{returns, Run, give, refuse, ◌>>=◌, ◌>>◌, checking}

-- `Save` is the data of a key generation, with its public point, if it has one. The standard form of
-- a point has 32 bytes, and that of a signature 64, as the arrays of tss-lib's functions have.
pub record EdTss : Type 1 where
  pub T : Type 0
  pub Save : Type 0
  pub public_point : Save → Option (ℕ × ℕ)
  pub standard_key : ℕ → ℕ → List ℕ
  pub length-standard_key : (x y : ℕ) → length (standard_key x y) ≡ 32
  pub standard_signature : List ℕ → Outcome (List ℕ)
  pub length-standard_signature :
      (raw : List ℕ) {sig : List ℕ} → standard_signature raw ≡ ok sig → length sig ≡ 64
  pub execute_keygen : String → List String → ℕ → String → T → Outcome Save × T
  pub execute_signing :
      String
      → String
      → List ℕ
      → List String
      → String
      → Save
      → SigningOptions
      → T
      → Outcome (Option (List ℕ)) × T
  pub encode : Save → Outcome (List ℕ)
  pub decode : List ℕ → Outcome Save
  pub keep_key_data : String → String → List ℕ → T → Outcome (Unit {0}) × T
  pub read_key_data : String → String → T → Outcome (List ℕ) × T

-- `frostKeyRecord`
pub record FrostRecord (E : EdTss) : Type 0 where
  pub key_data : E.Save
  pub public_key : PublicKey
  pub curve : String
  pub threshold : ℕ
  pub total_nodes : ℕ
  pub node_ids : List String

pub record FrostMemory (E : EdTss) : Type 0 where
  pub key_records : Dict (FrostRecord E)
  pub below : E.T

-- The share of the node at place `i`: it has no bytes.
abbrev pub frost_share : String → ℕ → String → KeyShare
frost_share key_id i node = record {
  share_id = ◌+++◌ key_id (◌+++◌ "-" (two_digits (suc i)));
  node_id = node;
  share = [];
  index = suc i;
}

unfoldable pub frost_shares : String → ℕ → List String → Dict KeyShare → Dict KeyShare
frost_shares key_id i [] shares = shares
frost_shares key_id i (node ∷ nodes) shares =
    frost_shares key_id (suc i) nodes (insert node (frost_share key_id i node) shares)

-- The curve of a key that is read from the storage, by the engine's.
abbrev curve_of_engine : String → String
curve_of_engine curve = if lower_eq curve "secp256k1" then "secp256k1" else "ed25519"

abbrev pub frost_key_id : ℕ → String → String
frost_key_id nano id = if str_eq id "" then ◌+++◌ "frost-key-key-" (decimal 19 nano) else id

-- convertFROSTSignature, of the bytes of tss-lib's signature.
abbrev pub signature_of : List ℕ → Signature
signature_of b = record {
  r = take 32 b;
  s = take 32 (drop 32 b);
  bytes = b;
  hex = encode_to_string b;
}

module _ (E : EdTss) where
  abbrev pub key_at : ℕ × ℕ → PublicKey
  key_at (x, y) = public_key_of (E.standard_key x y)

  abbrev converted : String → List String → Option (ℕ × ℕ) → Outcome (Dict KeyShare × PublicKey)
  converted id ids none = err (message "EDDSAPub is nil")
  converted id ids (some point) = ok (frost_shares id 0 ids [], key_at point)

  unfoldable pub convert_frost_key_data :
      String → E.Save → List String → Outcome (Dict KeyShare × PublicKey)
  convert_frost_key_data id d ids = converted id ids (E.public_point d)

  abbrev standard : Outcome (List ℕ) → Outcome Signature
  standard (err e) = err (wrap "failed to convert signature to standard Ed25519 format" e)
  standard (ok b) = ok (signature_of b)

  unfoldable pub convert_frost_signature : Option (List ℕ) → Outcome Signature
  convert_frost_signature none = err (message "signature data is nil")
  convert_frost_signature (some raw) = standard (E.standard_signature raw)

module _ {E : EdTss} where
  abbrev calling : {A : Type 0} → String → (E.T → Outcome A × E.T) → Run (FrostMemory E) A
  calling text f s = let (r, t) = f s.below in checking text r (record s { below = t })

  unfoldable pub save_frost_record : String → FrostRecord E → Run (FrostMemory E) (Unit {0})
  save_frost_record id r s = (returns tt, record s { key_records = insert id r s.key_records })

  -- Without a storage the key generation fails, after its record has been kept.
  unfoldable pub persist_frost : Bool → String → String → E.Save → Run (FrostMemory E) (Unit {0})
  persist_frost false id this d =
      refuse (message "keyShareStorage is nil, cannot store LocalPartySaveData")
  persist_frost true id this d = do
    bytes ← checking "failed to serialize LocalPartySaveData" (E.encode d)
    calling "failed to store LocalPartySaveData" (E.keep_key_data id this bytes)

  abbrev pub fresh_record : KeyGenRequest → List String → E.Save → PublicKey → FrostRecord E
  fresh_record req ids d key = record {
    key_data = d;
    public_key = key;
    curve = "ed25519";
    threshold = req.threshold;
    total_nodes = req.total_nodes;
    node_ids = ids;
  }

  -- FROSTProtocol.GenerateKeyShare; whatever the curve asked for, the record's is Ed25519.
  unfoldable pub generate_frost :
      Bool → String → ℕ → KeyGenRequest → Run (FrostMemory E) KeyGenReply
  generate_frost has_storage this nano req = do
    checking "invalid key generation request" (validate_frost req)
    ids ← checking "invalid node IDs" (normalize_node_ids req.node_ids req.total_nodes)
    d ←
        calling "execute FROST keygen"
          (E.execute_keygen (frost_key_id nano req.key_id) ids req.threshold this)
    made ←
        checking "convert FROST key data"
          (convert_frost_key_data E (frost_key_id nano req.key_id) d ids)
    save_frost_record (frost_key_id nano req.key_id) (fresh_record req ids d made.1)
    persist_frost has_storage (frost_key_id nano req.key_id) this d
    give (record { key_shares = made.0; public_key = made.1 })

  abbrev pub stored_record : String → E.Save → PublicKey → FrostRecord E
  stored_record curve d key = record {
    key_data = d;
    public_key = key;
    curve = curve_of_engine curve;
    threshold = 0;
    total_nodes = 0;
    node_ids = [];
  }

  abbrev load_frost_point :
      String → String → E.Save → Option (ℕ × ℕ) → Run (FrostMemory E) (FrostRecord E)
  load_frost_point curve id d none = refuse (message "EDDSAPub is nil in EdDSA LocalPartySaveData")
  load_frost_point curve id d (some point) =
      save_frost_record id (stored_record curve d (key_at E point))
      >> give (stored_record curve d (key_at E point))

  unfoldable pub load_frost : Bool → String → String → String → Run (FrostMemory E) (FrostRecord E)
  load_frost false curve id this =
      refuse (message "key not found in memory and keyShareStorage is nil")
  load_frost true curve id this = do
    bytes ← calling "key not found in memory or storage" (E.read_key_data id this)
    d ← checking "failed to deserialize EdDSA LocalPartySaveData" (E.decode bytes)
    load_frost_point curve id d (E.public_point d)

  unfoldable pub sign_frost_with :
      String → String → EngineRequest → FrostRecord E → Run (FrostMemory E) SignReply
  sign_frost_with this session req r = do
    msg ← checking "resolve message payload" (resolve_message_payload req)
    raw ← calling "execute FROST signing" (
        E.execute_signing session req.key_id msg req.node_ids this r.key_data frost_signing_options)
    sig ← checking "convert FROST signature" (convert_frost_signature E raw)
    give (record { signature = sig; public_key = r.public_key })

  abbrev found_or :
      Option (FrostRecord E)
      → Run (FrostMemory E) (FrostRecord E)
      → Run (FrostMemory E) (FrostRecord E)
  found_or (some r) load = give r
  found_or none load = load

  -- FROSTProtocol.ThresholdSign
  unfoldable pub threshold_sign_frost :
      Bool → String → String → String → EngineRequest → Run (FrostMemory E) SignReply
  threshold_sign_frost has_storage curve this session req s =
      (checking "invalid sign request" (validate_sign_request req)
          >> (found_or (lookup req.key_id s.key_records)
                (load_frost has_storage curve req.key_id this)
              >>= sign_frost_with this session req))
        s
