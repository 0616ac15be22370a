-- ===== src/Tests/Stores.antt =====
-- Examples for the files of key shares, the addresses and the coordinator.
use go_mpc_wallet.Base.{◌≡◌, refl, true, false, some, none, List, [], ◌∷◌, arith, lookup}
use go_mpc_wallet.Storage.World.{World, ok}
use go_mpc_wallet.Storage.Cache
use go_mpc_wallet.Session.Types.{Session}
use go_mpc_wallet.Session.Manager.{Manager, new_session}
use go_mpc_wallet.Node.Discovery.{Finder}
use go_mpc_wallet.Protocol.Encoding.{compressed_key}
use go_mpc_wallet.Chain.Address.{Hashes, ethereum_address, ethereum-compressed}
use go_mpc_wallet.Shares.Files.{
  is_plain, has_separator, share_file, Aead, Disk, Faults, store_key_share, get_key_share,
}
use go_mpc_wallet.Coordinator.Service.{CreateDkgSessionRequest, Notice, start_request}
use go_mpc_wallet.Tests.Server.{server, key_of, session_of, wallet}
use go_mpc_wallet.Shares.Distribute.{distribute_key_shares, HasDistinctKeys, HasPlainFiles}
use go_mpc_wallet.Shares.Spread.{get-distribute_key_shares, share_or}
use go_mpc_wallet.Base.{Dict, ℕ}
use go_mpc_wallet.Shares.Files.{write_encrypted}

abbrev hashes : Hashes
hashes = record { keccak256 = λ b. b; sum256 = λ b. b; ripemd160 = λ b. b; base58 = λ b. "1" }

ethereum-compressed_example : ethereum_address hashes (compressed_key 5 8) ≡ none
ethereum-compressed_example = ethereum-compressed hashes 5 8 (omega arith)

-- A cipher that leaves the text as it is.
abbrev cipher : Aead
cipher = record {
  nonce_size = 1;
  seal = λ nonce plain. plain;
  open_sealed = λ nonce sealed. some sealed;
  open-seal = λ nonce plain. refl;
  place = λ key name. (key, name);
  base = λ dir. dir;
  place-is_plain = λ key name _ _. refl;
}

abbrev calm : Faults
calm = record {
  mkdir = false;
  write_file = false;
  rename = false;
  read_file = false;
  remove = false;
}

abbrev disk : Disk
disk = ("k", ("a.enc", 0 ∷ 5 ∷ []) ∷ []) ∷ []

abbrev shares : Dict (List ℕ)
shares = ("a", 7 ∷ []) ∷ ("b", 8 ∷ []) ∷ []

distributes :
    (distribute_key_shares cipher (λ node. calm) (λ node. 9 ∷ []) "k" shares disk).0 ≡ ok tt
unfolding distribute_key_shares store_key_share write_encrypted
distributes = refl

distinct : HasDistinctKeys shares
unfolding HasDistinctKeys lookup
distinct = (refl, (refl, tt))

plain_key : is_plain "k" ≡ true
unfolding is_plain has_separator
plain_key = refl

plain_file : is_plain (share_file "b") ≡ true
unfolding is_plain has_separator
plain_file = refl

plain_files : HasPlainFiles shares
unfolding HasPlainFiles is_plain has_separator
plain_files = (refl, (refl, tt))

get-distribute_key_shares_example :
    get_key_share cipher calm "k" "b"
      (distribute_key_shares cipher (λ node. calm) (λ node. 9 ∷ []) "k" shares disk).1
    ≡ share_or (lookup "b" shares) (get_key_share cipher calm "k" "b" disk)
get-distribute_key_shares_example =
    get-distribute_key_shares cipher (λ node. calm) calm (λ node. 9 ∷ []) "k" shares disk "k" "b"
      (λ node. refl) refl distinct plain_key plain_key plain_files plain_file distributes

abbrev finder : Finder server
finder = record { catalog = none; order = λ d. [] }

abbrev manager : Manager
manager = record { timeout = 100 }

abbrev wish : CreateDkgSessionRequest
wish = record {
  key_id = "k";
  algorithm = "ECDSA";
  curve = "secp256k1";
  protocol = "gg20";
  threshold = 2;
  total_nodes = 3;
  node_ids = "a" ∷ "b" ∷ "c" ∷ [];
}

abbrev start : World server
start = wallet (key_of "k" "Pending") (session_of "s" "pending") 30

abbrev opened : Session
opened = new_session manager "k" "k" "gg20" 2 3 ("a" ∷ "b" ∷ "c" ∷ []) 30

abbrev told : Notice
told = record { leader = "a"; request = start_request wish ("a" ∷ "b" ∷ "c" ∷ []) }
