-- ===== src/Session/Lookup.antt =====
-- manager.go, GetSession: where a session comes from.
use go_mpc_wallet.Base.{◌≤◌, ◌≡◌, inl, inr, ◌⊎◌, String, some, lookup, arith}
use go_mpc_wallet.Storage.Types.{SigningSession}
use go_mpc_wallet.Storage.World.{
  Redis, World, ok, err, session_json, arrive, query, Outcome-cases, M, Error, wrap, wrapping,
  ◌>>=◌,
}
use go_mpc_wallet.Storage.Cache.{session_key}
use go_mpc_wallet.Storage.Cache
use go_mpc_wallet.Storage.Laws.{get_signing_session-ok, get_signing_session-state, cached-state}
use go_mpc_wallet.Session.Types.{Session, convert_storage_session}
use go_mpc_wallet.Session.Manager.{find_stored, get_session}
use go_mpc_wallet.Session.Coherence.{IsCoherent, SameData}

module _ {R : Redis} where
  pub arrive-SameData : (w : World R) → SameData (arrive w) w × (w.now ≤ (arrive w).now)
  unfolding arrive
  arrive-SameData w = ground arith

  cache_hit :
      (id : String) (w : World R) {s : SigningSession}
      → (Cache.get_session id w).0 ≡ ok s
      → R.get (session_key id) (arrive w).now w.cache ≡ some (session_json s)
  unfolding Cache.get_session query arrive
  cache_hit id w h = ground arith

  -- A session that is found comes from the cache, or else from the database.
  find_stored-source :
      (id : String) (w : World R) {s : SigningSession}
      → (find_stored id w).0 ≡ ok s
      → (R.get (session_key id) (arrive w).now w.cache ≡ some (session_json s))
        ⊎ (lookup id w.sessions ≡ some s)
  unfolding find_stored
  find_stored-source id w {s} h = elim (Outcome-cases (Cache.get_session id w).0) [
    | inl (_, hit) ↦ inl (cache_hit id w (ground arith))
    | inr (e, miss) ↦ inr (
        ground (
          arith,
          cached-state id w,
          get_signing_session-ok id (Cache.get_session id w).1 {s = s},
          arrive-SameData w,
        ))
  ]

  find_stored-SameData :
      (id : String) (w : World R)
      → SameData (find_stored id w).1 w × (w.now ≤ (find_stored id w).1.now)
  unfolding find_stored arrive
  find_stored-SameData id w =
      ground (arith, cached-state id w, get_signing_session-state id (arrive w))

  -- Reading a session changes neither a table nor the cache.
  pub get_session-SameData :
      (id : String) (w : World R)
      → SameData (get_session id w).1 w × (w.now ≤ (get_session id w).1.now)
  unfolding get_session
  get_session-SameData id w = ground (arith, find_stored-SameData id w)

  find_stored-row :
      (id : String) (w : World R) {s : SigningSession}
      → IsCoherent id w
      → (find_stored id w).0 ≡ ok s
      → lookup id w.sessions ≡ some s
  find_stored-row id w {s} c h = elim (find_stored-source id w h) [
    | inl hit ↦ ground (arith, c.cached (arrive w).now (session_json s) (arrive-SameData w).1 hit)
    | inr row ↦ row
  ]

  -- Where cache and database agree on a session, what GetSession reads is the session's row in the
  -- database.
  pub get_session-row :
      (id : String) (w : World R) {s : Session}
      → IsCoherent id w
      → (get_session id w).0 ≡ ok s
      → (row : SigningSession) × (lookup id w.sessions ≡ some row)
        × (s ≡ convert_storage_session row)
  unfolding get_session
  get_session-row id w c h = elim (Outcome-cases (find_stored id w).0) [
    | inl (row, found) ↦ (row, find_stored-row id w c found, ground arith)
    | inr (e, missing) ↦ ground arith
  ]

-- How an operation goes on once it has read its session, and how it ends if it could not.
module _ {R : Redis} {A : Type 0} (note id : String) (w : World R) (k : Session → M R A) where
  pub after_read :
      {s : Session}
      → (get_session id w).0 ≡ ok s
      → (wrapping note (get_session id) >>= k) w ≡ k s (get_session id w).1
  after_read h = ground arith

  pub after_miss :
      {e : Error}
      → (get_session id w).0 ≡ err e
      → (wrapping note (get_session id) >>= k) w ≡ (err (wrap note e), (get_session id w).1)
  after_miss h = ground arith
