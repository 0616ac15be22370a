-- ===== src/Storage/Cache.antt =====
-- internal/mpc/storage/redis.go: the sessions and the locks in Redis. Publishing and subscribing
-- are not modelled.
use go_mpc_wallet.Base.{
  ℕ, ◌+◌, ◌==◌, String, Bool, true, false, Option, none, some, if◌then◌else◌, ◌+++◌,
}
use go_mpc_wallet.Storage.Types.{SigningSession}
use go_mpc_wallet.Storage.World.{
  Redis, World, M, Entry, session_json, text, message, wrap, pure, fail, wrapping, write, query,
  arrive, ◌>>=◌, driver,
}

abbrev pub session_key : String → String
session_key id = ◌+++◌ "mpc:session:" id

abbrev pub lock_key : String → String
lock_key k = ◌+++◌ "mpc:lock:" k

-- go-redis sends no expiry for a duration of 0.
abbrev pub expiry : ℕ → ℕ → Option ℕ
expiry now ttl = if ttl == 0 then none else some (now + ttl)

-- `SET key value NX` of a lock, and its answer.
abbrev is_free : Option Entry → Bool
is_free none = true
is_free (some _) = false

module _ {R : Redis} where
  unfoldable pub save_session : SigningSession → ℕ → M R (Unit {0})
  save_session s ttl = wrapping "failed to save session" (
      write λ w. record w {
        cache = R.set (session_key s.session_id) (session_json s) (expiry w.now ttl) w.cache;
      })

  -- What `json.Unmarshal` makes of the bytes found.
  abbrev decode : Option Entry → M R SigningSession
  decode none = fail (message "session not found")
  decode (some (session_json s)) = pure s
  decode (some (text _)) = fail (wrap "failed to unmarshal session" driver)

  unfoldable pub get_session : String → M R SigningSession
  get_session id = do
    found ← wrapping "failed to get session" (query λ w. R.get (session_key id) w.now w.cache)
    decode found

  unfoldable pub update_session : SigningSession → ℕ → M R (Unit {0})
  unfolding save_session
  update_session s ttl = save_session s ttl

  unfoldable pub delete_session : String → M R (Unit {0})
  delete_session id =
      wrapping "failed to delete session"
        (write λ w. record w { cache = R.del (session_key id) w.cache })

  abbrev lock_if : Bool → String → ℕ → World R → World R
  lock_if true k ttl w = record w {
    cache = R.set (lock_key k) (text "1") (expiry w.now ttl) w.cache;
  }
  lock_if false k ttl w = w

  -- The answer to SETNX is whether the key was free when the command was carried out.
  unfoldable pub acquire_lock : String → ℕ → M R Bool
  acquire_lock k ttl w =
      let free = is_free (R.get (lock_key k) (arrive w).now (arrive w).cache) in
      (wrapping "failed to acquire lock" (write (lock_if free k ttl)) >>= λ _. pure free) w

  unfoldable pub release_lock : String → M R (Unit {0})
  release_lock k =
      wrapping "failed to release lock" (write λ w. record w { cache = R.del (lock_key k) w.cache })
