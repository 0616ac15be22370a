-- ===== src/Session/Timeout.antt =====
-- manager.go, CheckTimeout, and what the expiry of a session does to the cached copy.
use go_mpc_wallet.Base.{
  ◌+◌, ◌≤◌, ◌<◌, ◌≡◌, ◌≢◌, refl, inl, inr, String, Bool, true, false, some, lookup, arith, ltb,
  Bool-cases, subst, sym,
}
use go_mpc_wallet.Storage.Types.{SigningSession}
use go_mpc_wallet.Storage.World.{
  Redis, World, ok, err, Error, works, session_json, first_fate, arrive, Outcome-cases, query,
}
use go_mpc_wallet.Storage.Cache.{session_key}
use go_mpc_wallet.Storage.Cache
use go_mpc_wallet.Session.Types.{Session, convert_storage_session, timed_out, default_expiry}
use go_mpc_wallet.Session.Manager.{check_timeout, expire, update_session, get_session, find_stored}
use go_mpc_wallet.Session.Coherence.{IsCoherent, SameData}
use go_mpc_wallet.Session.Lookup.{get_session-SameData, arrive-SameData}
use go_mpc_wallet.Session.Update.{written_at, update_session-cache_late}
use go_mpc_wallet.Session.Change.{get_session-eq, lookup-change}

module _ {R : Redis} (s : Session) (w : World R) where
  expire-late :
      (b : Bool)
      → ltb s.expires_at w.now ≡ true
      → (expire s w).0 ≡ ok b
      → (b ≡ true)
        × ((update_session (record s { status = timed_out }) w).0 ≡ ok tt)
        × ((expire s w).1 ≡ (update_session (record s { status = timed_out }) w).1)
  unfolding expire
  expire-late b late done = ground arith

  expire-early : ltb s.expires_at w.now ≡ false → expire s w ≡ (ok false, w)
  unfolding expire
  expire-early early = ground arith

module _ {R : Redis} (id : String) (row : SigningSession) (w : World R) (c : IsCoherent id w)
    (found : lookup id w.sessions ≡ some row) where
  check_timeout-read :
      {s : Session}
      → (get_session id w).0 ≡ ok s
      → check_timeout id w ≡ expire (convert_storage_session row) (get_session id w).1
  unfolding check_timeout
  check_timeout-read {s} read = ground (arith, (get_session-eq id w s row c found read).0)

  check_timeout-unread :
      {e : Error} (b : Bool) → (get_session id w).0 ≡ err e → (check_timeout id w).0 ≢ ok b
  unfolding check_timeout
  check_timeout-unread b missing = ground arith

  check_timeout-expire :
      {b : Bool}
      → (check_timeout id w).0 ≡ ok b
      → check_timeout id w ≡ expire (convert_storage_session row) (get_session id w).1
  check_timeout-expire {b} done = elim (Outcome-cases (get_session id w).0) [
    | inl (s, read) ↦ check_timeout-read read
    | inr (e, missing) ↦ absurd (check_timeout-unread b missing done)
  ]

  abbrev expired_session : Session
  expired_session = record (convert_storage_session row) { status = timed_out }

  check_timeout-late :
      (check_timeout id w).0 ≡ ok true
      → (row.created_at + default_expiry < (get_session id w).1.now)
        × ((update_session expired_session (get_session id w).1).0 ≡ ok tt)
        × ((check_timeout id w).1 ≡ (update_session expired_session (get_session id w).1).1)
  check_timeout-late done =
      let same = check_timeout-expire done in
      elim (Bool-cases (ltb (row.created_at + default_expiry) (get_session id w).1.now)) [
        | inl late ↦ ground (
          arith,
          expire-late (convert_storage_session row) (get_session id w).1 true late
              (subst (λ r. r.0 ≡ ok true) same done),
        )
        | inr early ↦
            ground (arith, expire-early (convert_storage_session row) (get_session id w).1 early)
      ]

  -- Where cache and database agree on a session, CheckTimeout answers true only later than five
  -- minutes after the session's creation. The session's row then has the status timeout, and the
  -- cache is as before.
  pub check_timeout-true :
      (check_timeout id w).0 ≡ ok true
      → (row.created_at + default_expiry < (get_session id w).1.now)
        × (lookup id (check_timeout id w).1.sessions ≡ some (record row { status = timed_out }))
        × ((check_timeout id w).1.cache ≡ w.cache)
  check_timeout-true done =
      let (late, updated, same) = check_timeout-late done in
      ground (
        arith,
        get_session-SameData id w,
        lookup-change id expired_session row (get_session id w).1 (c.filed row found)
            (subst (λ rows. lookup id rows ≡ some row) (sym (get_session-SameData id w).0.2) found)
            refl updated,
        update_session-cache_late expired_session (get_session id w).1 updated (at_last late),
      )
    where
      at_last :
          row.created_at + default_expiry < (get_session id w).1.now
          → expired_session.expires_at ≤ written_at (get_session id w).1
      at_last late = ground (arith, arrive-SameData (get_session id w).1)

  -- Where cache and database agree on a session, CheckTimeout answers false only up to five
  -- minutes after the session's creation, and then changes no table and not the cache.
  pub check_timeout-false :
      (check_timeout id w).0 ≡ ok false
      → ((get_session id w).1.now ≤ row.created_at + default_expiry)
        × SameData (check_timeout id w).1 w
  check_timeout-false done =
      let same = check_timeout-expire done in
      elim (Bool-cases (ltb (row.created_at + default_expiry) (get_session id w).1.now)) [
        | inl late ↦ ground (
          arith,
          expire-late (convert_storage_session row) (get_session id w).1 false late
              (subst (λ r. r.0 ≡ ok false) same done),
        )
        | inr early ↦ ground (
          arith,
          expire-early (convert_storage_session row) (get_session id w).1 early,
          get_session-SameData id w,
        )
      ]

-- A cached copy that is live when it is asked for is what is read.
module _ {R : Redis} (id : String) (old : SigningSession) (w : World R) where
  pub get_session-cached :
      R.get (session_key id) (arrive w).now w.cache ≡ some (session_json old)
      → first_fate w.calls ≡ works
      → (get_session id w).0 ≡ ok (convert_storage_session old)
  unfolding get_session find_stored Cache.get_session query arrive
  get_session-cached hit answered = ground arith

module _ {R : Redis} (id : String) (row old : SigningSession) (w : World R) (c : IsCoherent id w)
    (found : lookup id w.sessions ≡ some row) where
  -- Where cache and database agree on a session, and CheckTimeout has answered true: as long as
  -- the cache still shows a copy of the session, and the next call works, GetSession reads that
  -- copy, which the time-out has not reached.
  pub check_timeout-unseen :
      (check_timeout id w).0 ≡ ok true
      → R.get (session_key id) (arrive (check_timeout id w).1).now w.cache ≡ some (session_json old)
      → first_fate (check_timeout id w).1.calls ≡ works
      → (get_session id (check_timeout id w).1).0 ≡ ok (convert_storage_session old)
  check_timeout-unseen done hit answered =
      get_session-cached id old (check_timeout id w).1
        (subst
          (λ db.
            R.get (session_key id) (arrive (check_timeout id w).1).now db ≡ some (session_json old))
          (sym (check_timeout-true id row w c found done).2) hit)
        answered
