-- ===== src/Tests/Keys.antt =====
-- Examples of the key service.
use go_mpc_wallet.Base.{◌≡◌, ◌≢◌, refl, String, some, [], ◌∷◌, lookup, insert, arith, eq_iff}
use go_mpc_wallet.Base.Hex.{decode_string}
use go_mpc_wallet.Storage.Types.{KeyMetadata}
use go_mpc_wallet.Storage.World.{World, ok, arrive, query, write}
use go_mpc_wallet.Storage.Postgres.{
  save_key_metadata, get_key_metadata, update_key_metadata, update_key, upsert_key,
}
use go_mpc_wallet.Key.Types.{CreateKeyRequest, Adapters}
use go_mpc_wallet.Key.Service.{
  Backend, described, promoted, promote, run_generation, store_shares, derived_address, chain_kind,
  create_placeholder_key, create_key_with_existing_metadata, delete_key, get_key, generate_address,
  address_for,
}
use go_mpc_wallet.Key.Promotion.{LeavesKeys, create_key_with_existing_metadata-ok}
use go_mpc_wallet.Key.Address.{generate_address-crossed}
use go_mpc_wallet.Tests.Server.{server, key_of, session_of, wallet}

abbrev adapters : Adapters
adapters = record { bitcoin = λ _. ok "bc1"; ethereum = λ _. ok "0x1" }

abbrev backend : Backend server
backend = record {
  generate = λ id r w.
      (ok (record { key_shares = ("a", 1 ∷ []) ∷ ("b", 2 ∷ []) ∷ []; public_key = "0c" }), w);
  store_key_share = λ id n share w. (ok tt, w);
}

backend-LeavesKeys : LeavesKeys backend
backend-LeavesKeys = record { generating = λ i r w. refl; storing = λ i n share w. refl }

abbrev request : CreateKeyRequest
request = record {
  key_id = "k";
  algorithm = "ECDSA";
  curve = "secp256k1";
  threshold = 1;
  total_nodes = 2;
  chain_type = "ethereum";
  description = "";
  tags = [];
}

abbrev start : World server
start = wallet (key_of "k" "Pending") (session_of "s" "active") 30

abbrev in_use : World server
in_use = wallet (key_of "k" "Active") (session_of "s" "active") 30

abbrev placed : KeyMetadata
placed = described request "k" "pending" "Pending" 30

places : (create_placeholder_key "u" request in_use).0 ≡ ok placed
unfolding create_placeholder_key save_key_metadata get_key_metadata upsert_key delete_key get_key
    update_key_metadata update_key query write arrive lookup insert
places = refl

deletes : (delete_key "k" in_use).0 ≡ ok tt
unfolding create_placeholder_key save_key_metadata get_key_metadata upsert_key delete_key get_key
    update_key_metadata update_key query write arrive lookup insert
deletes = refl

other_key : ◌≢◌ {A = String} "k" "l"
other_key = λ e. ground (arith, (eq_iff "k" "l").1 e)

abbrev made : KeyMetadata
made =
    promoted adapters request (key_of "k" "Pending") (record { key_shares = []; public_key = "0c" })
      30

makes : (create_key_with_existing_metadata backend adapters request start).0 ≡ ok made
unfolding create_key_with_existing_metadata promote run_generation store_shares derived_address
    chain_kind decode_string save_key_metadata get_key_metadata update_key_metadata update_key query
    write arrive lookup insert
makes = refl

create_key_with_existing_metadata-ok_example :
    (old : KeyMetadata) × (lookup "k" start.keys ≡ some old)
    × (old.status ≡ "Pending")
    × (made.status ≡ "Active")
    × (made.key_id ≡ "k")
    × (made.created_at ≡ old.created_at)
    × ((row : KeyMetadata) × (lookup "k"
            (create_key_with_existing_metadata backend adapters request start).1.keys
          ≡ some row)
        × (record row { updated_at = made.updated_at } ≡ made))
create_key_with_existing_metadata-ok_example =
    create_key_with_existing_metadata-ok backend adapters request start backend-LeavesKeys makes

in_use-differs : ◌≢◌ {A = String} "Active" "Pending"
in_use-differs = λ e. ground (arith, (eq_iff "Active" "Pending").1 e)

computes : (generate_address adapters "k" "bitcoin" in_use).0 ≡ ok "bc1"
unfolding generate_address address_for chain_kind decode_string get_key get_key_metadata
    update_key_metadata update_key query write arrive lookup insert
computes = refl

other_chain : ◌≢◌ {A = String} "ethereum" "bitcoin"
other_chain = λ e. ground (arith, (eq_iff "ethereum" "bitcoin").1 e)

filled : ◌≢◌ {A = String} "bc1" ""
filled = λ e. ground (arith, (eq_iff "bc1" "").1 e)

generate_address-crossed_example :
    (generate_address adapters "k" "ethereum" (generate_address adapters "k" "bitcoin" in_use).1).0
    ≡ ok "bc1"
unfolding lookup chain_kind decode_string
generate_address-crossed_example =
    generate_address-crossed adapters "k" (key_of "k" "Active") in_use "bitcoin" "bc1" refl refl
      refl other_chain filled refl
