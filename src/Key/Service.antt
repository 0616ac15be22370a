-- ===== src/Key/Service.antt =====
-- internal/mpc/key/service.go. The identifier that `uuid.New` draws is an argument. Key generation
-- (`dkgService` or the protocol engine) and the store of key shares are operations that the service
-- is given; `DeleteKey` deletes no share, since its list of nodes is empty in the source. A failure of key generation is
-- wrapped with one of two texts, of which one stands here.
use go_mpc_wallet.Base.{
  ℕ, String, ◌||◌, ◌&&◌, not, Option, none, some, List, [], ◌∷◌, Dict, if◌then◌else◌, str_eq, ◌+++◌,
}
use go_mpc_wallet.Base.Hex.{decode_string}
use go_mpc_wallet.Storage.Types.{KeyMetadata, KeyFilter}
use go_mpc_wallet.Storage.World.{
  Redis, M, Outcome, ok, err, driver, message, wrap, pure, fail, current_time, wrapping, ◌>>=◌,
  ◌>>◌,
}
use go_mpc_wallet.Storage.Postgres.{
  save_key_metadata, get_key_metadata, update_key_metadata, list_keys,
}
use go_mpc_wallet.Key.Types.{CreateKeyRequest, KeyGenResponse, Adapters}

-- What the service is given: `dkgService.ExecuteDKG` or `protocolEngine.GenerateKeyShare`, and
-- `keyShareStorage.StoreKeyShare`.
pub record Backend (R : Redis) : Type 0 where
  pub generate : String → CreateKeyRequest → M R KeyGenResponse
  pub store_key_share : String → String → List ℕ → M R (Unit {0})

abbrev pub key_identifier : CreateKeyRequest → String → String
key_identifier req uuid = if str_eq req.key_id "" then ◌+++◌ "key-" uuid else req.key_id

-- The metadata of a key that a request describes.
abbrev pub described : CreateKeyRequest → String → String → String → ℕ → KeyMetadata
described req key_id public_key status now = record {
  key_id = key_id;
  public_key = public_key;
  algorithm = req.algorithm;
  curve = req.curve;
  threshold = req.threshold;
  total_nodes = req.total_nodes;
  chain_type = req.chain_type;
  address = "";
  status = status;
  description = req.description;
  tags = req.tags;
  created_at = now;
  updated_at = now;
  deletion_date = none;
}

pub data ChainKind : Type 0 where
  bitcoin ethereum unsupported : ChainKind

-- The `switch` over the chain types.
unfoldable pub chain_kind : String → ChainKind
chain_kind s =
    if str_eq s "bitcoin" || str_eq s "btc"
    then bitcoin
    else (if str_eq s "ethereum" || str_eq s "eth" || str_eq s "evm" then ethereum else unsupported)

-- The address that a finished key starts with: the old one unless the chain type is supported, the
-- public key is hexadecimal, and the adapter succeeds.
abbrev address_of : Outcome String → String → String
address_of (ok a) old = a
address_of (err _) old = old

abbrev adapter_address : Adapters → ChainKind → Option (List ℕ) → String → String
adapter_address ad bitcoin (some bytes) old = address_of (ad.bitcoin bytes) old
adapter_address ad ethereum (some bytes) old = address_of (ad.ethereum bytes) old
adapter_address ad unsupported (some bytes) old = old
adapter_address ad kind none old = old

unfoldable pub derived_address : Adapters → String → String → String → String
derived_address ad chain_type public_key old =
    if str_eq chain_type ""
    then old
    else adapter_address ad (chain_kind chain_type) (decode_string public_key) old

-- The metadata that a placeholder becomes: of the old record the address, if no new one is derived,
-- and the dates of creation and deletion.
abbrev pub promoted : Adapters → CreateKeyRequest → KeyMetadata → KeyGenResponse → ℕ → KeyMetadata
promoted ad req old response now =
    record (described req req.key_id response.public_key "Active" now) {
      address = derived_address ad req.chain_type response.public_key old.address;
      created_at = old.created_at;
      deletion_date = old.deletion_date;
    }

abbrev pub deleted : KeyMetadata → ℕ → KeyMetadata
deleted k now = record k { status = "Deleted"; deletion_date = some now; updated_at = now }

abbrev named_failure : Outcome String → Outcome String
named_failure (ok a) = ok a
named_failure (err e) = err (wrap "failed to generate address" e)

abbrev run_adapter : Adapters → ChainKind → String → List ℕ → Outcome String
run_adapter ad bitcoin chain_type bytes = named_failure (ad.bitcoin bytes)
run_adapter ad ethereum chain_type bytes = named_failure (ad.ethereum bytes)
run_adapter ad unsupported chain_type bytes =
    err (message (◌+++◌ "unsupported chain type: " chain_type))

-- The public key is decoded before the chain type is looked at.
abbrev pub compute_address : Adapters → String → Option (List ℕ) → Outcome String
compute_address ad chain_type none = err (wrap "failed to decode public key" driver)
compute_address ad chain_type (some bytes) = run_adapter ad (chain_kind chain_type) chain_type bytes

abbrev pub addressed : KeyMetadata → String → ℕ → KeyMetadata
addressed k address now = record k { address = address; updated_at = now }

module _ {R : Redis} where
  -- A `range` over the map of shares; the first failure ends it.
  unfoldable pub store_shares : Backend R → String → Dict (List ℕ) → M R (Unit {0})
  store_shares b key_id [] w = (ok tt, w)
  store_shares b key_id ((node_id, share) ∷ rest) w =
      let (r, v) =
        wrapping (◌+++◌ "failed to store key share for node " node_id)
          (b.store_key_share key_id node_id share) w in
      elim r [ ok _ ↦ store_shares b key_id rest v | err e ↦ (err e, v) ]

  unfoldable pub create_key : Backend R → String → CreateKeyRequest → M R KeyMetadata
  create_key b uuid req = do
    let key_id = key_identifier req uuid
    response ← wrapping "failed to execute DKG" (b.generate key_id req)
    store_shares b key_id response.key_shares
    now ← current_time
    let k = described req key_id response.public_key "Active" now
    wrapping "failed to save key metadata" (save_key_metadata k)
    pure k

  unfoldable pub create_placeholder_key : String → CreateKeyRequest → M R KeyMetadata
  create_placeholder_key uuid req = do
    now ← current_time
    let k = described req (key_identifier req uuid) "pending" "Pending" now
    wrapping "failed to save placeholder key metadata" (save_key_metadata k)
    _ ← wrapping "key saved but verification failed" (get_key_metadata k.key_id)
    pure k

  -- CreateKeyWithExistingMetadata, once the placeholder has been read.
  unfoldable pub run_generation :
      Backend R → Adapters → CreateKeyRequest → KeyMetadata → M R KeyMetadata
  run_generation b ad req old = do
    response ← wrapping "failed to execute DKG" (b.generate req.key_id req)
    store_shares b req.key_id response.key_shares
    now ← current_time
    wrapping "failed to update key metadata"
        (update_key_metadata (promoted ad req old response now))
    pure (promoted ad req old response now)

  unfoldable pub promote : Backend R → Adapters → CreateKeyRequest → KeyMetadata → M R KeyMetadata
  promote b ad req old =
      if str_eq old.status "Pending"
      then run_generation b ad req old
      else fail (message (◌+++◌ "key " (◌+++◌ req.key_id " is not in Pending status")))

  unfoldable pub create_key_with_existing_metadata :
      Backend R → Adapters → CreateKeyRequest → M R KeyMetadata
  create_key_with_existing_metadata b ad req =
      if str_eq req.key_id ""
      then fail (message "keyID is required for CreateKeyWithExistingMetadata")
      else (wrapping "failed to get existing key metadata" (get_key_metadata req.key_id) >>= λ old.
          promote b ad req old)

  unfoldable pub get_key : String → M R KeyMetadata
  get_key key_id = wrapping "failed to get key metadata" (get_key_metadata key_id)

  unfoldable pub delete_key : String → M R (Unit {0})
  delete_key key_id = do
    k ← wrapping "failed to get key" (get_key key_id)
    now ← current_time
    wrapping "failed to update key status" (update_key_metadata (deleted k now))

  unfoldable pub list_service_keys : KeyFilter → M R (List KeyMetadata)
  list_service_keys f = wrapping "failed to list keys" (list_keys f)

  -- GenerateAddress, once the key has been read and has no address for the chain.
  abbrev store_address : KeyMetadata → Outcome String → M R String
  store_address k (err e) = fail e
  store_address k (ok address) = do
    now ← current_time
    wrapping "failed to update key metadata with address"
        (update_key_metadata (addressed k address now))
    pure address

  unfoldable pub address_for : Adapters → KeyMetadata → String → M R String
  address_for ad k chain_type =
      if not (str_eq k.address "") && str_eq k.chain_type chain_type
      then pure k.address
      else store_address k (compute_address ad chain_type (decode_string k.public_key))

  unfoldable pub generate_address : Adapters → String → String → M R String
  generate_address ad key_id chain_type = do
    k ← wrapping "failed to get key" (get_key key_id)
    address_for ad k chain_type
