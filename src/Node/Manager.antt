-- ===== src/Node/Manager.antt =====
-- internal/mpc/node/manager.go and registry.go. The identifier that `generateNodeID` draws at random
-- is an argument of the two registrations.
use go_mpc_wallet.Base.{
  ℕ, ◌*◌, String, ◌&&◌, Option, none, some, List, [], ◌∷◌, if◌then◌else◌, str_eq,
}
use go_mpc_wallet.Base.Int.{ℤ, sub_ℕ, less_than}
use go_mpc_wallet.Storage.Types.{NodeInfo, NodeFilter}
use go_mpc_wallet.Storage.World.{Redis, M, pure, current_time, wrapping, ◌>>=◌, ◌>>◌}
use go_mpc_wallet.Storage.Postgres.{
  save_node, get_node_info, update_node, list_node_infos, update_node_heartbeat,
}
use go_mpc_wallet.Node.Types.{HealthReport, active_node, coordinator, participant}

pub record NodeManager : Type 0 where
  pub heartbeat_interval : ℕ

abbrev pub age_of : Option ℕ → ℕ → Option ℤ
age_of none now = none
age_of (some t) now = some (sub_ℕ now t)

abbrev pub beat_check : NodeManager → Option ℤ → String
beat_check m none = "missing"
beat_check m (some age) = if less_than age (m.heartbeat_interval * 2) then "ok" else "stale"

-- The report on a node that has been read at `now`.
unfoldable pub report : NodeManager → String → NodeInfo → ℕ → HealthReport
report m id n now =
    let status_check = if str_eq n.status active_node then "ok" else "faulty" in
    let heartbeat_check = beat_check m (age_of n.last_heartbeat now) in
    record {
      node_id = id;
      status =
          if str_eq status_check "ok" && str_eq heartbeat_check "ok"
          then "healthy"
          else "unhealthy";
      timestamp = now;
      status_check = status_check;
      heartbeat_check = heartbeat_check;
      heartbeat_age = age_of n.last_heartbeat now;
    }

-- A node that starts: active, without a heartbeat.
abbrev pub started : String → String → String → String → List String → ℕ → NodeInfo
started node_id node_type endpoint public_key capabilities now = record {
  node_id = node_id;
  node_type = node_type;
  endpoint = endpoint;
  public_key = public_key;
  status = active_node;
  capabilities = capabilities;
  metadata = [];
  registered_at = now;
  last_heartbeat = none;
}

module _ {R : Redis} where
  -- The heartbeat is not among the fields that are copied.
  unfoldable pub register_node : NodeInfo → M R (Unit {0})
  register_node n =
      wrapping "failed to register node" (save_node (record n { last_heartbeat = none }))

  unfoldable pub get_node : String → M R NodeInfo
  get_node id = wrapping "failed to get node" (get_node_info id)

  unfoldable pub list_nodes : NodeFilter → M R (List NodeInfo)
  list_nodes f = wrapping "failed to list nodes" (list_node_infos f)

  unfoldable pub update_node_status : String → String → M R (Unit {0})
  update_node_status id status = do
    n ← wrapping "failed to get node" (get_node id)
    wrapping "failed to update node status" (update_node (record n { status = status }))

  unfoldable pub update_heartbeat : String → M R (Unit {0})
  update_heartbeat id = wrapping "failed to update heartbeat" (update_node_heartbeat id)

  unfoldable pub health_check : NodeManager → String → M R HealthReport
  health_check m id = do
    n ← wrapping "failed to get node" (get_node id)
    now ← current_time
    pure (report m id n now)

  unfoldable pub register_coordinator : String → String → String → M R NodeInfo
  register_coordinator node_id endpoint public_key = do
    now ← current_time
    let n = started node_id coordinator endpoint public_key ("gg18" ∷ "gg20" ∷ []) now
    wrapping "failed to register coordinator" (register_node n)
    pure n

  unfoldable pub register_participant : String → String → String → List String → M R NodeInfo
  register_participant node_id endpoint public_key capabilities = do
    now ← current_time
    let n = started node_id participant endpoint public_key capabilities now
    wrapping "failed to register participant" (register_node n)
    pure n
