-- ===== src/Session/Update.antt =====
-- manager.go, UpdateSession: what a successful update leaves in the database and in the cache.
use go_mpc_wallet.Base.{ℕ, ◌+◌, ◌-◌, ◌≤◌, ◌<◌, ◌≡◌, inl, inr, some, arith}
use go_mpc_wallet.Storage.World.{Redis, World, ok, session_json, arrive, Outcome-cases}
use go_mpc_wallet.Storage.Postgres.{update_signing_session, update_session_row}
use go_mpc_wallet.Storage.Cache.{session_key}
use go_mpc_wallet.Storage.Cache
use go_mpc_wallet.Storage.Laws.{update_signing_session-ok, cache_session-ok, cache_session-frame}
use go_mpc_wallet.Session.Types.{Session, to_storage}
use go_mpc_wallet.Session.Manager.{update_session}

-- When the update's second call is answered, and when the cached copy expires.
abbrev pub written_at : {R : Redis} → World R → ℕ
written_at w = (arrive w).now

abbrev pub cached_until : {R : Redis} → Session → World R → ℕ
cached_until s w = (arrive (arrive w)).now + (s.expires_at - (arrive w).now)

module _ {R : Redis} (s : Session) (w : World R) (done : (update_session s w).0 ≡ ok tt) where
  database_written : (update_signing_session (to_storage s) w).0 ≡ ok tt
  unfolding update_session
  database_written = elim (Outcome-cases (update_signing_session (to_storage s) w).0) [
    | inl (_, e) ↦ ground arith
    | inr (_, e) ↦ ground arith
  ]

  -- A successful update writes the row of the session, and no other data but the cache.
  pub update_session-rows :
      ((update_session s w).1.sessions ≡ update_session_row (to_storage s) w.sessions)
      × ((update_session s w).1.keys ≡ w.keys)
      × ((update_session s w).1.nodes ≡ w.nodes)
      × (written_at w ≤ (update_session s w).1.now)
  unfolding update_session Cache.update_session arrive
  update_session-rows = ground (
    arith,
    update_signing_session-ok (to_storage s) w database_written,
    cache_session-frame (to_storage s) (s.expires_at - (arrive w).now)
        (update_signing_session (to_storage s) w).1,
  )

  -- Before the session expires the update reaches the cache.
  pub update_session-cache :
      written_at w < s.expires_at
      → (update_session s w).1.cache
        ≡ R.set
            (session_key s.session_id)
            (session_json (to_storage s))
            (some (cached_until s w))
            w.cache
  unfolding update_session Cache.update_session arrive
  update_session-cache early = ground (
    arith,
    update_signing_session-ok (to_storage s) w database_written,
    cache_session-ok (to_storage s) (s.expires_at - (arrive w).now)
        (update_signing_session (to_storage s) w).1,
  )

  -- From then on it does not.
  pub update_session-cache_late :
      s.expires_at ≤ written_at w → (update_session s w).1.cache ≡ w.cache
  unfolding update_session arrive
  update_session-cache_late late =
      ground (arith, update_signing_session-ok (to_storage s) w database_written)
