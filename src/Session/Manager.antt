-- ===== src/Session/Manager.antt =====
-- internal/mpc/session/manager.go: the operations on a session. The identifier that `uuid.New`
-- draws is an argument of `create_session`. Logging is left out. Where
-- an operation returns a value beside an error (`check_timeout`), the value is left out.
use go_mpc_wallet.Base.{
  ℕ, zero, suc, ◌+◌, ◌-◌, ◌*◌, String, Bool, true, false, ◌||◌, none, some, List, [], ◌∷◌, ◌++◌,
  ltb, if◌then◌else◌, str_eq, ◌+++◌,
}
use go_mpc_wallet.Base.Int.{pos, sub_ℕ, quot}
use go_mpc_wallet.Storage.Types.{SigningSession, millisecond}
use go_mpc_wallet.Storage.World.{
  Redis, World, M, ok, err, message, pure, fail, current_time, wrapping, ◌>>=◌, ◌>>◌,
}
use go_mpc_wallet.Storage.Postgres.{
  save_signing_session, get_signing_session, update_signing_session, get_key_metadata,
  update_key_metadata,
}
use go_mpc_wallet.Storage.Cache
use go_mpc_wallet.Session.Types.{
  Session, pending, active, completed, cancelled, timed_out, to_storage, convert_storage_session,
  is_open,
}

pub record Manager : Type 0 where
  pub timeout : ℕ

-- The session that CreateSession and CreateKeyGenSession begin with.
abbrev pub new_session : Manager → String → String → String → ℕ → ℕ → List String → ℕ → Session
new_session m session_id key_id protocol threshold total_nodes node_ids now = record {
  session_id = session_id;
  key_id = key_id;
  protocol = protocol;
  status = pending;
  threshold = threshold;
  total_nodes = total_nodes;
  participating_nodes = node_ids;
  current_round = 0;
  total_rounds = 4;
  signature = "";
  created_at = now;
  completed_at = none;
  duration_ms = pos 0;
  expires_at = now + m.timeout;
}

-- `protocol` with `keygen` in place of the empty text.
abbrev pub keygen_protocol : String → String
keygen_protocol p = if str_eq p "" then "keygen" else p

-- The state in which a session ends: at `now`, with a signature (for key generation, a public key).
abbrev pub finished : Session → String → ℕ → Session
finished s signature now = record s {
  status = completed;
  signature = signature;
  completed_at = some now;
  duration_ms = quot (sub_ℕ now s.created_at) millisecond;
}

abbrev pub joined : Session → String → Session
joined s node_id = record s {
  participating_nodes = s.participating_nodes ++ node_id ∷ [];
  status = active;
}

-- `for _, nid := range nodes { if nid == id … }`
unfoldable pub contains : String → List String → Bool
contains id [] = false
contains id (n ∷ ns) = str_eq n id || contains id ns

module _ {R : Redis} where
  abbrev pub sleep : ℕ → World R → World R
  sleep d w = record w { now = w.now + d }

  unfoldable pub create_session : Manager → String → String → String → ℕ → ℕ → M R Session
  create_session m uuid key_id protocol threshold total_nodes = do
    now ← current_time
    let session = new_session m (◌+++◌ "session-" uuid) key_id protocol threshold total_nodes [] now
    wrapping "failed to save session to database" (save_signing_session (to_storage session))
    wrapping "failed to save session to cache" (Cache.save_session (to_storage session) m.timeout)
    pure session

  -- The loop over the attempts left, with the delay before the next; the last error is returned.
  unfoldable pub retry_save : ℕ → ℕ → SigningSession → M R (Unit {0})
  retry_save zero delay s w = (ok tt, w)
  retry_save (suc zero) delay s w = save_signing_session s w
  retry_save (suc (suc n)) delay s w =
      let (r, v) = save_signing_session s w in
      elim r [ ok _ ↦ (ok tt, v) | err _ ↦ retry_save (suc n) (delay * 2) s (sleep delay v) ]

  -- A failure to write the cache is only logged.
  abbrev pub ignoring_errors : M R (Unit {0}) → M R (Unit {0})
  ignoring_errors a w = (ok tt, (a w).1)

  unfoldable pub create_key_gen_session :
      Manager → String → String → ℕ → ℕ → List String → M R Session
  create_key_gen_session m key_id protocol threshold total_nodes node_ids = do
    now ← current_time
    let session =
        new_session m key_id key_id (keygen_protocol protocol) threshold total_nodes node_ids now
    wrapping "failed to save keygen session to database after retries"
        (retry_save 3 (100 * millisecond) (to_storage session))
    _ ← wrapping "session saved but verification failed" (get_signing_session key_id)
    ignoring_errors (Cache.save_session (to_storage session) m.timeout)
    pure session

  -- The cache first, the database if that gives an error.
  unfoldable pub find_stored : String → M R SigningSession
  find_stored id w =
      let (r, v) = Cache.get_session id w in
      elim r [ ok s ↦ (ok s, v) | err _ ↦ get_signing_session id v ]

  unfoldable pub get_session : String → M R Session
  unfolding find_stored
  get_session id = do
    s ←
        wrapping (◌+++◌ "failed to get session " (◌+++◌ id " from both Redis and PostgreSQL"))
          (find_stored id)
    pure (convert_storage_session s)

  -- The time that is left is read after the database has been written.
  unfoldable pub update_session : Session → M R (Unit {0})
  update_session s = do
    wrapping "failed to update session in database" (update_signing_session (to_storage s))
    now ← current_time
    if ltb now s.expires_at
        then wrapping "failed to update session in cache"
            (Cache.update_session (to_storage s) (s.expires_at - now))
        else pure tt

  abbrev store_changed : Session → M R (Unit {0})
  store_changed s = wrapping "failed to update session" (update_session s)

  -- JoinSession, once it has the session.
  unfoldable pub admit : Session → String → M R (Unit {0})
  admit s node_id =
      if is_open s.status
      then (if contains node_id s.participating_nodes
          then pure tt
          else store_changed (joined s node_id))
      else fail (message (◌+++◌ "session is not joinable: status=" s.status))

  unfoldable pub join_session : String → String → M R (Unit {0})
  join_session id node_id = do
    s ← wrapping "failed to get session" (get_session id)
    admit s node_id

  unfoldable pub complete_session : String → String → M R (Unit {0})
  complete_session id signature = do
    s ← wrapping "failed to get session" (get_session id)
    now ← current_time
    store_changed (finished s signature now)

  -- The last step of key generation: the key gets its public key, and becomes active.
  unfoldable pub activate_key : String → String → ℕ → M R (Unit {0})
  activate_key key_id public_key now = do
    k ← wrapping "failed to get key metadata" (get_key_metadata key_id)
    wrapping "failed to update key metadata" (
        update_key_metadata
          (record k { public_key = public_key; status = "Active"; updated_at = now }))

  -- CompleteKeygenSession, once it has the session, and its part after the check.
  unfoldable pub close_keygen : Session → String → String → M R (Unit {0})
  close_keygen s key_id public_key = do
    now ← current_time
    wrapping "failed to update keygen session" (update_session (finished s public_key now))
    activate_key key_id public_key now

  unfoldable pub finish_keygen : Session → String → String → M R (Unit {0})
  unfolding close_keygen
  finish_keygen s key_id public_key =
      if is_open s.status
      then close_keygen s key_id public_key
      else fail (message (◌+++◌ "cannot complete session in status " s.status))

  unfoldable pub complete_keygen_session : String → String → M R (Unit {0})
  complete_keygen_session key_id public_key = do
    s ← wrapping "failed to get keygen session" (get_session key_id)
    finish_keygen s key_id public_key

  unfoldable pub cancel_session : String → M R (Unit {0})
  cancel_session id = do
    s ← wrapping "failed to get session" (get_session id)
    store_changed (record s { status = cancelled })

  -- CheckTimeout, once it has the session.
  unfoldable pub expire : Session → M R Bool
  expire s w =
      if ltb s.expires_at w.now
      then (store_changed (record s { status = timed_out }) >>= λ _. pure true) w
      else (ok false, w)

  unfoldable pub check_timeout : String → M R Bool
  check_timeout id = do s ← wrapping "failed to get session" (get_session id); expire s
