-- ===== src/Node/Health.antt =====
-- node/manager.go: when a node is reported as healthy.
use go_mpc_wallet.Base.{
  ℕ, ◌+◌, ◌*◌, ◌<◌, ◌≡◌, ◌↔◌, refl, inl, inr, String, Bool, Option, none, some, lookup, arith,
  str_eq, eq_iff, Option-cases, Bool-cases, leb, if◌then◌else◌, ◌&&◌, subst, sym, true, false,
}
use go_mpc_wallet.Base.Int.{less_than, sub_ℕ}
use go_mpc_wallet.Storage.Types.{NodeInfo}
use go_mpc_wallet.Storage.World.{Redis, World, ok, arrive, query}
use go_mpc_wallet.Storage.Postgres.{get_node_info}
use go_mpc_wallet.Node.Types.{HealthReport, active_node}
use go_mpc_wallet.Node.Manager.{NodeManager, report, age_of, beat_check, health_check, get_node}

-- The node is active, and its last heartbeat was less than two intervals ago.
abbrev pub IsAlive : NodeManager → NodeInfo → ℕ → Type 0
IsAlive m n now =
    (n.status ≡ active_node)
    × ((t : ℕ) × (n.last_heartbeat ≡ some t) × (now < t + m.heartbeat_interval * 2))

-- The status of a report, by whether the row is active.
abbrev overall : NodeManager → Bool → Option ℕ → ℕ → String
overall m a beat now =
    if str_eq (if a then "ok" else "faulty") "ok" && str_eq (beat_check m (age_of beat now)) "ok"
    then "healthy"
    else "unhealthy"

less_than-sub : (now t k : ℕ) → now < t + k → less_than (sub_ℕ now t) k ≡ true
less_than-sub now t k fresh = elim (Bool-cases (leb t now)) [
  | inl past ↦ rw past (ground arith)
  | inr future ↦ rw future refl
]

less_than-bound : (now t k : ℕ) → less_than (sub_ℕ now t) k ≡ true → now < t + k
less_than-bound now t k h = elim (Bool-cases (leb t now)) [
  | inl past ↦ ground arith
  | inr future ↦ ground arith
]

abbrev verdict : Bool → String
verdict fresh = if str_eq (if fresh then "ok" else "stale") "ok" then "healthy" else "unhealthy"

verdict-ok : (fresh : Bool) → verdict fresh ≡ "healthy" → fresh ≡ true
verdict-ok true h = refl
verdict-ok false h = ground (arith, (eq_iff "unhealthy" "healthy").1 h)

module _ (m : NodeManager) (now : ℕ) where
  overall-alive :
      (a : Bool) (beat : Option ℕ)
      → overall m a beat now ≡ "healthy"
      → (a ≡ true) × ((t : ℕ) × (beat ≡ some t) × (now < t + m.heartbeat_interval * 2))
  overall-alive false beat h = ground (arith, (eq_iff "unhealthy" "healthy").1 h)
  overall-alive true none h = ground (arith, (eq_iff "unhealthy" "healthy").1 h)
  overall-alive true (some t) h = (
    refl,
    (
      t,
      refl,
      less_than-bound now t (m.heartbeat_interval * 2)
          (verdict-ok (less_than (sub_ℕ now t) (m.heartbeat_interval * 2)) h),
    ),
  )

  overall-healthy :
      (t : ℕ) → now < t + m.heartbeat_interval * 2 → overall m true (some t) now ≡ "healthy"
  overall-healthy t fresh = rw (less_than-sub now t (m.heartbeat_interval * 2) fresh) refl

module _ (m : NodeManager) (id : String) (n : NodeInfo) (now : ℕ) where
  report-IsAlive : (report m id n now).status ≡ "healthy" → IsAlive m n now
  unfolding report
  report-IsAlive healthy =
      let (a, beating) =
        overall-alive m now (str_eq n.status active_node) n.last_heartbeat healthy in
      ((eq_iff n.status active_node).0 a, beating)

  report-healthy : IsAlive m n now → (report m id n now).status ≡ "healthy"
  unfolding report
  report-healthy (active, beating) =
      let (t, beat, fresh) = beating in
      rw ((eq_iff n.status active_node).1 active, beat) (overall-healthy m now t fresh)

-- A report of HealthCheck is of the node's row: it says healthy exactly if the row is active and
-- has a heartbeat that is less than two intervals old. Nothing but the clock and the coming calls
-- changes.
pub health_check-ok :
    {R : Redis} (m : NodeManager) (id : String) (w : World R) {h : HealthReport}
    → (health_check m id w).0 ≡ ok h
    → (n : NodeInfo) × (lookup id w.nodes ≡ some n)
      × ((h.status ≡ "healthy") ↔ IsAlive m n (arrive w).now)
      × ((health_check m id w).1 ≡ arrive w)
unfolding health_check get_node get_node_info query arrive
health_check-ok m id w {h} done = elim (Option-cases (lookup id w.nodes)) [
  | inl missing ↦ ground arith
  | inr (n, found) ↦
      (let shape : h ≡ report m id n (arrive w).now = ground arith in
        (
          n,
          found,
          subst (λ r. (r.status ≡ "healthy") ↔ IsAlive m n (arrive w).now) (sym shape)
              (report-IsAlive m id n (arrive w).now, report-healthy m id n (arrive w).now),
          ground arith,
        ))
]
