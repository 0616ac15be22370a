-- ===== src/Node/Discovery.antt =====
-- internal/mpc/node/discovery.go: DiscoverNodes. The order in which Go ranges over a map is a
-- parameter.
use go_mpc_wallet.Base.{
  ℕ, ◌/◌, ◌%◌, zero, suc, String, Option, none, some, List, [], ◌∷◌, ◌++◌, Dict, insert, length,
  leb, ltb, drop, if◌then◌else◌, str_eq, ◌+++◌,
}
use go_mpc_wallet.Storage.Types.{NodeInfo, NodeFilter}
use go_mpc_wallet.Storage.World.{Redis, M, Outcome, ok, err, pure, wrapping, ◌>>=◌}
use go_mpc_wallet.Node.Types.{ServiceInfo, participant}
use go_mpc_wallet.Node.Consul.{Catalog, extract_node_id, discover_participants}
use go_mpc_wallet.Node.Manager.{list_nodes}

digits : List String
digits = "0" ∷ "1" ∷ "2" ∷ "3" ∷ "4" ∷ "5" ∷ "6" ∷ "7" ∷ "8" ∷ "9" ∷ []

abbrev first_or_empty : List String → String
first_or_empty [] = ""
first_or_empty (s ∷ _) = s

-- `%d`, by at most so many digits: an `int` of 64 bits has at most 19.
unfoldable pub decimal : ℕ → ℕ → String
unfolding digits
decimal zero n = ""
decimal (suc f) n =
    let rest = decimal f (n / 10) in
    let last = first_or_empty (drop (n % 10) digits) in if ltb n 10 then last else ◌+++◌ rest last

abbrev pub consul_node : String → String → ServiceInfo → NodeInfo
consul_node id status svc = record {
  node_id = id;
  node_type = svc.node_type;
  endpoint = ◌+++◌ svc.address (◌+++◌ ":" (decimal 19 svc.port));
  public_key = "";
  status = status;
  capabilities = [];
  metadata = [];
  registered_at = 0;
  last_heartbeat = none;
}

-- The loop over the services; one without a node identifier is skipped.
unfoldable pub consul_nodes : String → List ServiceInfo → List NodeInfo
consul_nodes status [] = []
consul_nodes status (svc ∷ rest) =
    let later = consul_nodes status rest in
    if str_eq (extract_node_id svc) ""
    then later
    else consul_node (extract_node_id svc) status svc ∷ later

-- `for _, n := range allNodes { uniqueNodes[n.NodeID] = n }`: a later node takes the place of an
-- earlier one of the same identifier.
unfoldable pub unique_nodes : Dict NodeInfo → List NodeInfo → Dict NodeInfo
unique_nodes seen [] = seen
unique_nodes seen (n ∷ ns) = unique_nodes (insert n.node_id n seen) ns

-- The discovery service, if one is configured, and the order of a `range` over the map of nodes.
pub record Finder (R : Redis) : Type 0 where
  pub catalog : Option (Catalog R)
  pub order : Dict NodeInfo → List NodeInfo

module _ {R : Redis} (d : Finder R) where
  -- What is made of the answer of the discovery service; an error leaves the nodes of the database.
  unfoldable pub merged : String → List NodeInfo → Outcome (List ServiceInfo) → List NodeInfo
  merged status nodes (err _) = nodes
  merged status nodes (ok services) =
      d.order (unique_nodes [] (nodes ++ consul_nodes status services))

  unfoldable pub ask_consul :
      Option (Catalog R) → String → String → ℕ → List NodeInfo → M R (List NodeInfo)
  ask_consul none node_type status limit nodes w = (ok nodes, w)
  ask_consul (some c) node_type status limit nodes w =
      if str_eq node_type participant
      then (let (r, v) = discover_participants c limit w in (ok (merged status nodes r), v))
      else (ok nodes, w)

  unfoldable pub supplemented : String → String → ℕ → List NodeInfo → M R (List NodeInfo)
  supplemented node_type status limit nodes =
      if leb limit (length nodes)
      then pure nodes
      else ask_consul d.catalog node_type status limit nodes

  abbrev pub wanted : String → String → ℕ → NodeFilter
  wanted node_type status limit = record {
    node_type = node_type;
    status = status;
    limit = limit;
    offset = 0;
  }

  unfoldable pub discover_nodes : String → String → ℕ → M R (List NodeInfo)
  discover_nodes node_type status limit =
      wrapping "failed to list nodes from database" (list_nodes (wanted node_type status limit))
      >>= supplemented node_type status limit
