-- ===== src/Node/Standing.antt =====
-- node/manager.go: the row of a node under UpdateNodeStatus and UpdateHeartbeat.
use go_mpc_wallet.Base.{◌≡◌, inl, inr, String, some, lookup, arith, str_eq_self, lookup-insert}
use go_mpc_wallet.Storage.Types.{NodeInfo}
use go_mpc_wallet.Storage.World.{Redis, World, ok, arrive, query, write, Outcome-cases}
use go_mpc_wallet.Storage.Postgres.{get_node_info, update_node, update_row}
use go_mpc_wallet.Node.Manager.{get_node, update_node_status}

module _ {R : Redis} (w : World R) where
  get_node-ok : (id : String) {n : NodeInfo} → (get_node id w).0 ≡ ok n → lookup id w.nodes ≡ some n
  unfolding get_node get_node_info query arrive
  get_node-ok id done = ground arith

  get_node-state : (id : String) → (get_node id w).1 ≡ arrive w
  unfolding get_node get_node_info query
  get_node-state id = ground arith

  update_node-row :
      (n old : NodeInfo)
      → lookup n.node_id w.nodes ≡ some old
      → (update_node n w).0 ≡ ok tt
      → lookup n.node_id (update_node n w).1.nodes
        ≡ some (record n { registered_at = old.registered_at })
  unfolding update_node write arrive update_row
  update_node-row n old found done = ground (
    arith,
    lookup-insert n.node_id n.node_id (record n { registered_at = old.registered_at }) w.nodes,
    str_eq_self n.node_id,
  )

module _ {R : Redis} (w : World R) (id status : String) where
  -- An UpdateNodeStatus that succeeds, of a node whose row stands under its own identifier, gives
  -- the row the new status, and keeps its other fields.
  pub update_node_status-ok :
      (old : NodeInfo)
      → lookup id w.nodes ≡ some old
      → old.node_id ≡ id
      → (update_node_status id status w).0 ≡ ok tt
      → lookup id (update_node_status id status w).1.nodes ≡ some (record old { status = status })
  unfolding update_node_status arrive
  update_node_status-ok old found named done = elim (Outcome-cases (get_node id w).0) [
    | inl (n, read) ↦ ground (
      arith,
      get_node-ok w id read,
      get_node-state w id,
      update_node-row (arrive w) (record old { status = status }) old,
    )
    | inr (e, missing) ↦ ground arith
  ]
