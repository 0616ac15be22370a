-- ===== src/Node/Merge.antt =====
-- node/discovery.go, DiscoverNodes: how often a node is in the list that is returned.
use go_mpc_wallet.Base.{
  ℕ, suc, ◌+◌, ◌≤◌, ◌≡◌, refl, inl, inr, String, Bool, Option, none, some, List, [], ◌∷◌, ◌++◌,
  Dict, insert, values, length, leb, if◌then◌else◌, arith, str_eq, eq_iff, Bool-cases,
}
use Prim.Native.Nat.{min}
use go_mpc_wallet.Storage.Types.{NodeInfo}
use go_mpc_wallet.Storage.World.{Redis, World, Outcome, ok, err}
use go_mpc_wallet.Node.Types.{ServiceInfo, participant}
use go_mpc_wallet.Node.Consul.{Catalog, discover_participants}
use go_mpc_wallet.Node.Manager.{list_nodes}
use go_mpc_wallet.Node.Discovery.{
  Finder, unique_nodes, consul_nodes, merged, ask_consul, supplemented, wanted, discover_nodes,
}

-- How many elements pass the test.
unfoldable pub tally : (NodeInfo → Bool) → List NodeInfo → ℕ
tally p [] = 0
tally p (n ∷ ns) = let rest = tally p ns in if p n then suc rest else rest

-- How often a node is in a list.
abbrev pub occurrences : String → List NodeInfo → ℕ
occurrences id ns = tally (λ n. str_eq n.node_id id) ns

tally-append :
    (p : NodeInfo → Bool) (ns ms : List NodeInfo) → tally p (ns ++ ms) ≡ tally p ns + tally p ms
unfolding tally
tally-append p [] ms = ground arith
tally-append p (n ∷ ns) ms = ground (arith, tally-append p ns ms)

-- Every node stands under its own identifier, and under no other entry.
IsFiled : Dict NodeInfo → Type 0
IsFiled [] = Unit
IsFiled ((j, n) ∷ m) = (n.node_id ≡ j) × (occurrences j (values m) ≡ 0) × IsFiled m

module _ (v : NodeInfo) where
  occurrences-insert :
      (id : String) (d : Dict NodeInfo)
      → IsFiled d
      → occurrences id (values (insert v.node_id v d))
        ≡ (if str_eq v.node_id id then 1 else occurrences id (values d))
  unfolding tally insert IsFiled
  occurrences-insert id [] filed = ground arith
  occurrences-insert id ((j, n) ∷ m) filed = ground (
    arith,
    occurrences-insert id m filed.2,
    eq_iff v.node_id id,
    eq_iff j v.node_id,
    eq_iff n.node_id id,
    eq_iff j id,
  )

  insert-IsFiled : (d : Dict NodeInfo) → IsFiled d → IsFiled (insert v.node_id v d)
  unfolding tally insert IsFiled
  insert-IsFiled [] filed = (refl, refl, tt)
  insert-IsFiled ((j, n) ∷ m) filed = elim (Bool-cases (str_eq j v.node_id)) [
    | inl same ↦ rw same (refl, ground (arith, eq_iff j v.node_id), filed.2)
    | inr other ↦ rw other (
      filed.0,
      ground (arith, occurrences-insert j m filed.2, eq_iff j v.node_id, eq_iff v.node_id j),
      insert-IsFiled m filed.2,
    )
  ]

-- A node is once in the map if it was there or is in the list.
occurrences-unique_nodes :
    (id : String) (seen : Dict NodeInfo) (ns : List NodeInfo)
    → IsFiled seen
    → occurrences id (values seen) ≤ 1
    → occurrences id (values (unique_nodes seen ns))
      ≡ min 1 (occurrences id (values seen) + occurrences id ns)
unfolding unique_nodes tally
occurrences-unique_nodes id seen [] filed once = ground arith
occurrences-unique_nodes id seen (n ∷ ns) filed once =
    let again = occurrences-insert n id seen filed in
    ground (
      arith,
      again,
      occurrences-unique_nodes id (insert n.node_id n seen) ns (insert-IsFiled n seen filed)
          (ground (arith, again)),
    )

-- A `range` over a map visits every entry once.
abbrev pub VisitsEach : {R : Redis} → Finder R → Type 0
VisitsEach d = (p : NodeInfo → Bool) (m : Dict NodeInfo) → tally p (d.order m) ≡ tally p (values m)

module _ {R : Redis} (d : Finder R) (node_type status id : String) (limit : ℕ)
    (visits : VisitsEach d) where
  merged-once :
      (nodes : List NodeInfo) (r : Outcome (List ServiceInfo))
      → occurrences id nodes ≤ 1
      → (occurrences id (merged d status nodes r) ≤ 1)
        × (occurrences id nodes ≤ occurrences id (merged d status nodes r))
  unfolding merged IsFiled tally
  merged-once nodes (err e) once = ground arith
  merged-once nodes (ok services) once =
      let met = nodes ++ consul_nodes status services in
      ground (
        arith,
        visits (λ n. str_eq n.node_id id) (unique_nodes [] met),
        occurrences-unique_nodes id [] met tt (omega arith),
        tally-append (λ n. str_eq n.node_id id) nodes (consul_nodes status services),
      )

  ask_consul-once :
      (c : Option (Catalog R)) (nodes : List NodeInfo) (w : World R)
      → occurrences id nodes ≤ 1
      → (ns : List NodeInfo) × ((ask_consul d c node_type status limit nodes w).0 ≡ ok ns)
        × (occurrences id ns ≤ 1)
        × (occurrences id nodes ≤ occurrences id ns)
  unfolding ask_consul
  ask_consul-once none nodes w once = (nodes, refl, once, omega arith)
  ask_consul-once (some c) nodes w once = elim (Bool-cases (str_eq node_type participant)) [
    | inl asked ↦
        let r = (discover_participants c limit w).0 in
        let (single, kept) = merged-once nodes r once in
        (merged d status nodes r, rw asked refl, single, kept)
    | inr other ↦ (nodes, rw other refl, once, omega arith)
  ]

  supplemented-once :
      (nodes : List NodeInfo) (w : World R)
      → occurrences id nodes ≤ 1
      → (ns : List NodeInfo) × ((supplemented d node_type status limit nodes w).0 ≡ ok ns)
        × (occurrences id ns ≤ 1)
        × (occurrences id nodes ≤ occurrences id ns)
  unfolding supplemented
  supplemented-once nodes w once = elim (Bool-cases (leb limit (length nodes))) [
    | inl plenty ↦ (nodes, rw plenty refl, once, omega arith)
    | inr few ↦ rw few (ask_consul-once d.catalog nodes w once)
  ]

  -- Provided that a range over a map visits every entry once: where the database answers with a
  -- list that has a node at most once, DiscoverNodes succeeds, whatever Consul does, with a list
  -- that has the node at most once, and has it if the database's list does.
  pub discover_nodes-once :
      (w : World R) {nodes : List NodeInfo}
      → (list_nodes (wanted d node_type status limit) w).0 ≡ ok nodes
      → occurrences id nodes ≤ 1
      → (ns : List NodeInfo) × ((discover_nodes d node_type status limit w).0 ≡ ok ns)
        × (occurrences id ns ≤ 1)
        × (occurrences id nodes ≤ occurrences id ns)
  unfolding discover_nodes
  discover_nodes-once w {nodes} answered once =
      let v = (list_nodes (wanted d node_type status limit) w).1 in
      let (ns, done, single, kept) = supplemented-once nodes v once in
      (ns, ground arith, single, kept)
