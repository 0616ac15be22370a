-- ===== src/Tests/Server.antt =====
-- A Redis server that keeps its entries in a list, and a state of the wallet with one key and one
-- session, for the examples.
use go_mpc_wallet.Base.{
  ℕ, ◌≡◌, ◌≢◌, ◌<◌, ◌≤◌, String, Option, none, some, [], ◌∷◌, Dict, lookup, insert, erase, ltb,
  if◌then◌else◌, arith, str_eq_self, str_eq_ne, lookup-insert, lookup-erase, ap, sym,
}
use go_mpc_wallet.Base.Int.{pos}
use go_mpc_wallet.Storage.Types.{KeyMetadata, NodeInfo, SigningSession}
use go_mpc_wallet.Storage.World.{Redis, World, Entry}
use go_mpc_wallet.Session.Coherence.{IsCoherent}

abbrev stored : Option (Entry × Option ℕ) → ℕ → Option Entry
stored none now = none
stored (some (e, none)) now = some e
stored (some (e, some d)) now = if ltb now d then some e else none

abbrev pub Cells : Type 0
Cells = Dict (Entry × Option ℕ)

abbrev pub get_cell : String → ℕ → Cells → Option Entry
get_cell k now db = stored (lookup k db) now

abbrev pub set_cell : String → Entry → Option ℕ → Cells → Cells
set_cell k e d db = insert k (e, d) db

pub set_cell_live :
    (k : String) (v : Entry) (d now : ℕ) (db : Cells)
    → now < d
    → get_cell k now (set_cell k v (some d) db) ≡ some v
set_cell_live k v d now db early = ground (arith, lookup-insert k k (v, some d) db, str_eq_self k)

pub set_cell_expired :
    (k : String) (v : Entry) (d now : ℕ) (db : Cells)
    → d ≤ now
    → get_cell k now (set_cell k v (some d) db) ≡ none
set_cell_expired k v d now db past = ground (arith, lookup-insert k k (v, some d) db, str_eq_self k)

pub set_cell_forever :
    (k : String) (v : Entry) (now : ℕ) (db : Cells) → get_cell k now (set_cell k v none db) ≡ some v
set_cell_forever k v now db = ground (arith, lookup-insert k k (v, none) db, str_eq_self k)

pub set_cell_other :
    (k j : String) (v : Entry) (d : Option ℕ) (now : ℕ) (db : Cells)
    → k ≢ j
    → get_cell j now (set_cell k v d db) ≡ get_cell j now db
set_cell_other k j v d now db differs =
    ground (arith, lookup-insert k j (v, d) db, str_eq_ne k j differs)

pub erase_self : (k : String) (now : ℕ) (db : Cells) → get_cell k now (erase k db) ≡ none
erase_self k now db = ground (arith, lookup-erase k k db, str_eq_self k)

pub erase_other :
    (k j : String) (now : ℕ) (db : Cells) → k ≢ j → get_cell j now (erase k db) ≡ get_cell j now db
erase_other k j now db differs = ground (arith, lookup-erase k j db, str_eq_ne k j differs)

abbrev pub server : Redis
server = record {
  Db = Cells;
  set = set_cell;
  get = get_cell;
  del = erase;
  get-set_live = set_cell_live;
  get-set_expired = set_cell_expired;
  get-set_forever = set_cell_forever;
  get-set_ne = set_cell_other;
  get-del_self = erase_self;
  get-del_ne = erase_other;
}

abbrev pub key_of : String → String → KeyMetadata
key_of id status = record {
  key_id = id;
  public_key = "0a0b";
  algorithm = "ECDSA";
  curve = "secp256k1";
  threshold = 1;
  total_nodes = 2;
  chain_type = "ethereum";
  address = "";
  status = status;
  description = "";
  tags = [];
  created_at = 10;
  updated_at = 10;
  deletion_date = none;
}

abbrev pub node_of : String → NodeInfo
node_of id = record {
  node_id = id;
  node_type = "participant";
  endpoint = "10.0.0.1:9090";
  public_key = "";
  status = "active";
  capabilities = [];
  metadata = [];
  registered_at = 5;
  last_heartbeat = some 40;
}

abbrev pub session_of : String → String → SigningSession
session_of id status = record {
  session_id = id;
  key_id = "k";
  protocol = "gg20";
  status = status;
  threshold = 1;
  total_nodes = 2;
  participating_nodes = "a" ∷ [];
  current_round = 0;
  total_rounds = 4;
  signature = "";
  created_at = 20;
  completed_at = none;
  duration_ms = pos 0;
}

-- One key, one node and one session, at a time, with an empty cache and no failure ahead.
abbrev pub wallet : KeyMetadata → SigningSession → ℕ → World server
wallet k s now = record {
  keys = (k.key_id, k) ∷ [];
  nodes = ("a", node_of "a") ∷ [];
  sessions = (s.session_id, s) ∷ [];
  cache = [];
  now = now;
  calls = [];
}

pub found_session : (s t : SigningSession) (id : String) → lookup id ((id, s) ∷ []) ≡ some t → s ≡ t
unfolding lookup
found_session s t id found = ground (arith, str_eq_self id)

-- With an empty cache there is nothing to disagree with.
pub fresh-IsCoherent :
    (k : KeyMetadata) (s : SigningSession) (now : ℕ) → IsCoherent s.session_id (wallet k s now)
unfolding lookup
fresh-IsCoherent k s now = record {
  filed = λ t found. ap (λ r. r.session_id) (sym (found_session s t s.session_id found));
  cached = λ t e later hit. ground (arith, hit);
}
