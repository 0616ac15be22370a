-- ===== src/Tests/Nodes.antt =====
-- Examples of the nodes' manager and of their discovery.
use go_mpc_wallet.Base.{
  ◌≤◌, ◌≡◌, ◌≢◌, refl, String, some, List, [], ◌∷◌, lookup, insert, keep, values, arith, eq_iff,
}
use go_mpc_wallet.Base.Sorting.{sort}
use go_mpc_wallet.Storage.Types.{NodeInfo}
use go_mpc_wallet.Storage.World.{World, ok, arrive, query, write}
use go_mpc_wallet.Storage.Postgres.{
  get_node_info, update_node, update_row, list_node_infos, select_nodes,
}
use go_mpc_wallet.Node.Types.{HealthReport, AgentService}
use go_mpc_wallet.Node.Consul.{Catalog, extract_node_id, extract_node_type, registration}
use go_mpc_wallet.Node.Manager.{
  NodeManager, report, health_check, get_node, list_nodes, update_node_status,
}
use go_mpc_wallet.Node.Discovery.{Finder, discover_nodes, wanted}
use go_mpc_wallet.Node.Naming.{extract_node_id-registration}
use go_mpc_wallet.Node.Merge.{tally, occurrences, discover_nodes-once}
use go_mpc_wallet.Tests.Server.{server, key_of, node_of, session_of, wallet}

abbrev start : World server
start = wallet (key_of "k" "Active") (session_of "s" "active") 50

typed : ◌≢◌ {A = String} "participant" ""
typed = ground (arith, eq_iff "participant" "")

extract_node_id-registration_example :
    (extract_node_id (registration "n1" "participant" "10.0.0.2" 9090) ≡ "n1")
    × (extract_node_type (registration "n1" "participant" "10.0.0.2" 9090).tags ≡ "participant")
extract_node_id-registration_example =
    extract_node_id-registration "n1" "participant" "10.0.0.2" 9090 typed

abbrev nodes : NodeManager
nodes = record { heartbeat_interval = 30 }

abbrev healthy : HealthReport
healthy = report nodes "a" (node_of "a") 50

checks : (health_check nodes "a" start).0 ≡ ok healthy
unfolding update_node_status health_check report get_node get_node_info update_node update_row
    list_nodes list_node_infos select_nodes keep sort query write arrive lookup insert
checks = refl

changes : (update_node_status "a" "faulty" start).0 ≡ ok tt
unfolding update_node_status health_check report get_node get_node_info update_node update_row
    list_nodes list_node_infos select_nodes keep sort query write arrive lookup insert
changes = refl

abbrev service_of : String → AgentService
service_of tag = record {
  id = "mpc-participant-x";
  service = "mpc-participant";
  address = "10.0.0.3";
  port = 9090;
  tags = tag ∷ [];
  meta = [];
}

abbrev catalog : Catalog server
catalog = record {
  healthy_services = λ name tags w. (ok (service_of "node-id:a" ∷ service_of "node-id:b" ∷ []), w);
}

abbrev finder : Finder server
finder = record { catalog = some catalog; order = values }

answers : (list_nodes (wanted finder "participant" "active" 2) start).0 ≡ ok (node_of "a" ∷ [])
unfolding update_node_status health_check report get_node get_node_info update_node update_row
    list_nodes list_node_infos select_nodes keep sort query write arrive lookup insert
answers = refl

once : occurrences "a" (node_of "a" ∷ []) ≤ 1
unfolding tally
once = omega arith

discover_nodes-once_example :
    (ns : List NodeInfo) × ((discover_nodes finder "participant" "active" 2 start).0 ≡ ok ns)
    × (occurrences "a" ns ≤ 1)
    × (occurrences "a" (node_of "a" ∷ []) ≤ occurrences "a" ns)
discover_nodes-once_example =
    discover_nodes-once finder "participant" "active" "a" 2 (λ p m. refl) start answers once
