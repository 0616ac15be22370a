-- ===== src/Session/Create.antt =====
-- manager.go, CreateSession and CreateKeyGenSession: what a new session looks like, and how it is
-- found again.
use go_mpc_wallet.Base.{
  ℕ, ◌*◌, ◌≤◌, ◌≡◌, inl, inr, String, true, some, lookup, arith, List, [], length, ◌+++◌,
  Option-cases,
}
use go_mpc_wallet.Storage.Types.{SigningSession, millisecond}
use go_mpc_wallet.Storage.World.{Redis, World, ok, arrive, Outcome-cases, query}
use go_mpc_wallet.Storage.Postgres.{
  save_signing_session, upserted_session, has_key, get_signing_session,
}
use go_mpc_wallet.Storage.Cache.{session_key}
use go_mpc_wallet.Storage.Cache
use go_mpc_wallet.Storage.Laws.{
  cache_session-frame, get_signing_session-state, get_signing_session-calm,
}
use go_mpc_wallet.Session.Types.{Session, to_storage, convert_storage_session}
use go_mpc_wallet.Session.Manager.{
  Manager, new_session, keygen_protocol, create_key_gen_session, get_session, find_stored,
  retry_save,
}
use go_mpc_wallet.Session.Coherence.{IsCoherent}
use go_mpc_wallet.Session.Lookup.{arrive-SameData}
use go_mpc_wallet.Session.Retry.{
  retry_save-ok, retry_save-total, retry_save-calls, nil_of_length, failures-length,
}

-- With no failure ahead the row of a coherent session is what is read.
pub get_session-calm :
    {R : Redis} (id : String) (row : SigningSession) (w : World R)
    → IsCoherent id w
    → lookup id w.sessions ≡ some row
    → w.calls ≡ []
    → (get_session id w).0 ≡ ok (convert_storage_session row)
unfolding get_session find_stored Cache.get_session get_signing_session query arrive
get_session-calm {R} id row w c found calm =
    elim (Option-cases (R.get (session_key id) (arrive w).now w.cache)) [
      | inl missing ↦ ground arith
      | inr (e, hit) ↦
          let (s, shape, same) = c.cached (arrive w).now e (arrive-SameData w).1 hit in ground arith
    ]

module _ {R : Redis} (m : Manager) (uuid key_id protocol : String) (threshold total_nodes : ℕ)
    (w : World R) where
  abbrev created : Session
  created = new_session m (◌+++◌ "session-" uuid) key_id protocol threshold total_nodes [] w.now

  abbrev saved_state : World R
  saved_state = (save_signing_session (to_storage created) w).1

  abbrev cached_state : World R
  cached_state = (Cache.save_session (to_storage created) m.timeout saved_state).1

module _ {R : Redis} (m : Manager) (key_id protocol : String) (threshold total_nodes : ℕ)
    (node_ids : List String) (w : World R) where
  abbrev pub planned : Session
  planned =
      new_session m key_id key_id (keygen_protocol protocol) threshold total_nodes node_ids w.now

  abbrev retried : World R
  retried = (retry_save 3 (100 * millisecond) (to_storage planned) w).1

  create_key_gen-parts :
      {s : Session}
      → (create_key_gen_session m key_id protocol threshold total_nodes node_ids w).0 ≡ ok s
      → (s ≡ planned)
        × ((retry_save 3 (100 * millisecond) (to_storage planned) w).0 ≡ ok tt)
        × ((create_key_gen_session m key_id protocol threshold total_nodes node_ids w).1
            ≡ (Cache.save_session
                (to_storage planned)
                m.timeout
                (get_signing_session key_id retried).1).1)
  unfolding create_key_gen_session
  create_key_gen-parts done =
      elim (Outcome-cases (retry_save 3 (100 * millisecond) (to_storage planned) w).0) [
        | inl (_, saved) ↦ elim (Outcome-cases (get_signing_session key_id retried).0) [
          | inl (_, verified) ↦ ground arith
          | inr (e, lost) ↦ ground arith
        ]
        | inr (e, unsaved) ↦ ground arith
      ]

  -- A session that CreateKeyGenSession returns is pending, has the key's identifier and the given
  -- nodes, and the protocol keygen if none was named. Its row is in the database, with the time of
  -- creation of the row that was there before, if any.
  pub create_key_gen_session-ok :
      {s : Session}
      → (create_key_gen_session m key_id protocol threshold total_nodes node_ids w).0 ≡ ok s
      → (s ≡ planned)
        × (lookup key_id
              (create_key_gen_session m key_id protocol threshold total_nodes node_ids w).1.sessions
            ≡ some (upserted_session (to_storage planned) (lookup key_id w.sessions)))
  create_key_gen_session-ok done =
      let (shape, saved, same) = create_key_gen-parts done in
      ground (
        arith,
        retry_save-ok (to_storage planned) 2 (100 * millisecond) w saved,
        get_signing_session-state key_id retried,
        arrive-SameData retried,
        cache_session-frame (to_storage planned) m.timeout (get_signing_session key_id retried).1,
      )

  -- Once the key's row is there, CreateKeyGenSession succeeds if none but the next two calls of
  -- the database may fail, and returns the session that was planned.
  pub create_key_gen_session-total :
      has_key key_id w.keys ≡ true
      → length w.calls ≤ 2
      → (create_key_gen_session m key_id protocol threshold total_nodes node_ids w).0 ≡ ok planned
  unfolding create_key_gen_session
  create_key_gen_session-total known few =
      let saved =
        retry_save-total (to_storage planned) 2 (100 * millisecond) w known
          (omega (arith, failures-length w.calls)) in
      let (used, _) = retry_save-calls (to_storage planned) 2 (100 * millisecond) w saved in
      let verified =
        get_signing_session-calm key_id
          (upserted_session (to_storage planned) (lookup key_id w.sessions)) retried
          (retry_save-ok (to_storage planned) 2 (100 * millisecond) w saved)
          (nil_of_length retried.calls (omega arith)) in
      ground arith
