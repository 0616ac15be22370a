-- ===== src/Session/Change.antt =====
-- manager.go: a change of a session, as JoinSession, CompleteSession, CancelSession and CheckTimeout
-- make it: the row that was read is written back with some fields anew.
use go_mpc_wallet.Base.{
  ℕ, ◌<◌, ◌≡◌, inl, inr, String, some, lookup, arith, ltb, Bool-cases, lookup-insert, str_eq_self,
  Dict, subst, sym,
}
use go_mpc_wallet.Storage.Types.{SigningSession}
use go_mpc_wallet.Storage.World.{Redis, World, ok, Entry, session_json}
use go_mpc_wallet.Storage.Postgres.{update_session_row}
use go_mpc_wallet.Storage.Cache.{session_key}
use go_mpc_wallet.Session.Types.{Session, to_storage, convert_storage_session}
use go_mpc_wallet.Session.Manager.{update_session, get_session}
use go_mpc_wallet.Session.Coherence.{IsCoherent}
use go_mpc_wallet.Session.Lookup.{get_session-row}
use go_mpc_wallet.Session.Update.{
  written_at, cached_until, update_session-rows, update_session-cache,
}

pub lookup-update_session_row :
    (s old : SigningSession) (rows : Dict SigningSession)
    → lookup s.session_id rows ≡ some old
    → lookup s.session_id (update_session_row s rows)
      ≡ some (record s { created_at = old.created_at })
unfolding update_session_row
lookup-update_session_row s old rows h = ground (
  arith,
  str_eq_self s.session_id,
  lookup-insert s.session_id s.session_id (record s { created_at = old.created_at }) rows,
)

-- The row and the cache hold this session.
abbrev pub Holds : {R : Redis} → String → SigningSession → World R → Type 0
Holds id row w = (lookup id w.sessions ≡ some row) × IsCoherent id w

-- What a cached copy shows, until it expires and after.
pub cached_copy :
    (R : Redis) (k : String) (s : SigningSession) (d t : ℕ) (db : R.Db) {e : Entry}
    → R.get k t (R.set k (session_json s) (some d) db) ≡ some e
    → e ≡ session_json s
cached_copy R k s d t db h = elim (Bool-cases (ltb t d)) [
  | inl live ↦ ground (arith, R.get-set_live k (session_json s) d t db (ground arith))
  | inr over ↦ ground (arith, R.get-set_expired k (session_json s) d t db (ground arith))
]

module _ {R : Redis} (s : Session) (row : SigningSession) (w : World R)
    (found : lookup s.session_id w.sessions ≡ some row) (same : s.created_at ≡ row.created_at)
    (early : written_at w < s.expires_at) (done : (update_session s w).0 ≡ ok tt) where
  stored : lookup s.session_id (update_session s w).1.sessions ≡ some (to_storage s)
  stored = ground (
    arith,
    update_session-rows s w done,
    lookup-update_session_row (to_storage s) row w.sessions found,
  )

  shown_copy :
      (t : ℕ) (e : Entry)
      → R.get (session_key s.session_id) t (update_session s w).1.cache ≡ some e
      → e ≡ session_json (to_storage s)
  shown_copy t e shown =
      cached_copy R (session_key s.session_id) (to_storage s) (cached_until s w) t w.cache (
        subst (λ db. R.get (session_key s.session_id) t db ≡ some e)
          (update_session-cache s w done early) shown)

  -- A successful update before the expiry leaves the row and the cache in agreement.
  pub update_session-Holds : Holds s.session_id (to_storage s) (update_session s w).1
  update_session-Holds = (
    stored,
    record {
      filed = λ x e. ground (arith, stored);
      cached = λ t e _ shown. (to_storage s, shown_copy t e shown, stored);
    },
  )

module _ {R : Redis} (id : String) (w : World R) where
  -- The session as read of a coherent state, its identifier, and its times.
  pub get_session-shape :
      (s : Session)
      → IsCoherent id w
      → (get_session id w).0 ≡ ok s
      → (row : SigningSession) × (lookup id w.sessions ≡ some row)
        × (s ≡ convert_storage_session row)
        × (s.session_id ≡ id)
  get_session-shape s c h =
      let (row, found, shape) = get_session-row id w c h in
      (row, found, shape, ground (arith, c.filed row found))

  -- The same with the row at hand.
  pub get_session-eq :
      (s : Session) (row : SigningSession)
      → IsCoherent id w
      → lookup id w.sessions ≡ some row
      → (get_session id w).0 ≡ ok s
      → (s ≡ convert_storage_session row) × (row.session_id ≡ id)
  get_session-eq s row c found h =
      let (other, found', shape) = get_session-row id w c h in (ground arith, c.filed row found)

-- The update of the row of a session, in place of its named fields.
pub lookup-change :
    {R : Redis} (id : String) (s : Session) (row : SigningSession) (w : World R)
    → s.session_id ≡ id
    → lookup id w.sessions ≡ some row
    → s.created_at ≡ row.created_at
    → (update_session s w).0 ≡ ok tt
    → lookup id (update_session s w).1.sessions ≡ some (to_storage s)
lookup-change id s row w named found same done =
    subst (λ k. lookup k (update_session s w).1.sessions ≡ some (to_storage s)) named
      (ground (
        arith,
        update_session-rows s w done,
        lookup-update_session_row (to_storage s) row w.sessions
            (subst (λ k. lookup k w.sessions ≡ some row) (sym named) found),
      ))

pub change-Holds :
    {R : Redis} (id : String) (s : Session) (row : SigningSession) (w : World R)
    → s.session_id ≡ id
    → lookup id w.sessions ≡ some row
    → s.created_at ≡ row.created_at
    → written_at w < s.expires_at
    → (update_session s w).0 ≡ ok tt
    → Holds id (to_storage s) (update_session s w).1
change-Holds id s row w named found same early done =
    subst (λ k. Holds k (to_storage s) (update_session s w).1) named
      (update_session-Holds s row w (subst (λ k. lookup k w.sessions ≡ some row) (sym named) found)
        same early done)
