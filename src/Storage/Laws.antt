-- ===== src/Storage/Laws.antt =====
-- What a call of a store does when it succeeds, and what it leaves alone however it ends.
use go_mpc_wallet.Base.{ℕ, ◌≡◌, String, some, lookup, arith, []}
use go_mpc_wallet.Storage.Types.{SigningSession, KeyMetadata}
use go_mpc_wallet.Storage.World.{Redis, World, ok, write, query, arrive, session_json}
use go_mpc_wallet.Storage.Postgres.{
  upsert_session, update_session_row, update_key, save_signing_session, get_signing_session,
  update_signing_session, get_key_metadata, update_key_metadata, save_key_metadata, upsert_key,
}
use go_mpc_wallet.Storage.Cache.{session_key, expiry}
use go_mpc_wallet.Storage.Cache

module _ {R : Redis} where
  pub write-ok :
      (f : World R → World R) (w : World R) → (write f w).0 ≡ ok tt → (write f w).1 ≡ f (arrive w)
  unfolding write
  write-ok f w h = ground arith

  pub query-ok :
      {A : Type 0} (f : World R → A) (w : World R) {a : A} → (query f w).0 ≡ ok a → f (arrive w) ≡ a
  unfolding query
  query-ok f w h = ground arith

  pub query-state : {A : Type 0} (f : World R → A) (w : World R) → (query f w).1 ≡ arrive w
  unfolding query
  query-state f w = ground arith

  pub get_signing_session-state :
      (id : String) (w : World R) → (get_signing_session id w).1 ≡ arrive w
  unfolding get_signing_session query
  get_signing_session-state id w = ground arith

  pub get_signing_session-ok :
      (id : String) (w : World R) {s : SigningSession}
      → (get_signing_session id w).0 ≡ ok s
      → lookup id w.sessions ≡ some s
  unfolding get_signing_session query arrive
  get_signing_session-ok id w h = ground arith

  pub cached-state : (id : String) (w : World R) → (Cache.get_session id w).1 ≡ arrive w
  unfolding Cache.get_session query
  cached-state id w = ground arith

  pub update_signing_session-ok :
      (s : SigningSession) (w : World R)
      → (update_signing_session s w).0 ≡ ok tt
      → (update_signing_session s w).1
        ≡ record (arrive w) { sessions = update_session_row s w.sessions }
  unfolding update_signing_session write arrive
  update_signing_session-ok s w h = ground arith

  pub update_signing_session-frame :
      (s : SigningSession) (w : World R)
      → let v = (update_signing_session s w).1 in
        (v.keys ≡ w.keys)
        × (v.nodes ≡ w.nodes)
        × (v.cache ≡ w.cache)
        × (v.calls ≡ (arrive w).calls)
        × (v.now ≡ (arrive w).now)
  unfolding update_signing_session write arrive
  update_signing_session-frame s w = ground arith

  pub save_signing_session-ok :
      (s : SigningSession) (w : World R)
      → (save_signing_session s w).0 ≡ ok tt
      → (save_signing_session s w).1
        ≡ record (arrive (arrive w)) { sessions = upsert_session s w.sessions }
  unfolding save_signing_session write query arrive
  save_signing_session-ok s w h = ground arith

  pub cache_session-ok :
      (s : SigningSession) (ttl : ℕ) (w : World R)
      → (Cache.save_session s ttl w).0 ≡ ok tt
      → (Cache.save_session s ttl w).1 ≡ record (arrive w) {
        cache =
            R.set (session_key s.session_id) (session_json s) (expiry (arrive w).now ttl) w.cache;
      }
  unfolding Cache.save_session write arrive
  cache_session-ok s ttl w h = ground arith

  pub cache_session-frame :
      (s : SigningSession) (ttl : ℕ) (w : World R)
      → let v = (Cache.save_session s ttl w).1 in
        (v.keys ≡ w.keys)
        × (v.nodes ≡ w.nodes)
        × (v.sessions ≡ w.sessions)
        × (v.now ≡ (arrive w).now)
  unfolding Cache.save_session write arrive
  cache_session-frame s ttl w = ground arith

  pub update_key_metadata-ok :
      (k : KeyMetadata) (w : World R)
      → (update_key_metadata k w).0 ≡ ok tt
      → (update_key_metadata k w).1 ≡ record (arrive w) { keys = update_key k w.keys }
  unfolding update_key_metadata write arrive
  update_key_metadata-ok k w h = ground arith

  pub get_key_metadata-ok :
      (id : String) (w : World R) {k : KeyMetadata}
      → (get_key_metadata id w).0 ≡ ok k
      → lookup id w.keys ≡ some k
  unfolding get_key_metadata query arrive
  get_key_metadata-ok id w h = ground arith

  pub get_key_metadata-state : (id : String) (w : World R) → (get_key_metadata id w).1 ≡ arrive w
  unfolding get_key_metadata query
  get_key_metadata-state id w = ground arith

  pub update_key_metadata-frame :
      (k : KeyMetadata) (w : World R)
      → let v = (update_key_metadata k w).1 in
        (v.nodes ≡ w.nodes)
        × (v.sessions ≡ w.sessions)
        × (v.cache ≡ w.cache)
        × (v.now ≡ (arrive w).now)
  unfolding update_key_metadata write arrive
  update_key_metadata-frame k w = ground arith

  pub get_signing_session-calm :
      (id : String) (row : SigningSession) (w : World R)
      → lookup id w.sessions ≡ some row
      → w.calls ≡ []
      → (get_signing_session id w).0 ≡ ok row
  unfolding get_signing_session query arrive
  get_signing_session-calm id row w found calm = ground arith

  pub save_key_metadata-ok :
      (k : KeyMetadata) (w : World R)
      → (save_key_metadata k w).0 ≡ ok tt
      → (save_key_metadata k w).1 ≡ record (arrive w) { keys = upsert_key k w.keys }
  unfolding save_key_metadata write arrive
  save_key_metadata-ok k w h = ground arith

  pub get_key_metadata-calm :
      (id : String) (k : KeyMetadata) (w : World R)
      → lookup id w.keys ≡ some k
      → w.calls ≡ []
      → (get_key_metadata id w).0 ≡ ok k
  unfolding get_key_metadata query arrive
  get_key_metadata-calm id k w found calm = ground arith

  pub update_key_metadata-calm :
      (k : KeyMetadata) (w : World R)
      → w.calls ≡ []
      → ((update_key_metadata k w).0 ≡ ok tt) × ((update_key_metadata k w).1.calls ≡ [])
  unfolding update_key_metadata write arrive
  update_key_metadata-calm k w calm = ground arith
