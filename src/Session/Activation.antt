-- ===== src/Session/Activation.antt =====
-- manager.go, CompleteKeygenSession: when the key becomes active, who is refused, and what a failure
-- between the two writes leaves behind.
use go_mpc_wallet.Base.{
  ◌+◌, ◌≤◌, ◌<◌, ◌≡◌, ◌≢◌, refl, inl, inr, String, true, false, some, lookup, arith, Bool-cases,
  subst, sym, ◌∙◌,
}
use go_mpc_wallet.Storage.Types.{SigningSession, KeyMetadata}
use go_mpc_wallet.Storage.World.{Redis, World, ok, Outcome-cases}
use go_mpc_wallet.Session.Types.{Session, convert_storage_session, is_open, default_expiry}
use go_mpc_wallet.Session.Manager.{
  complete_keygen_session, close_keygen, update_session, get_session, finished,
}
use go_mpc_wallet.Session.Coherence.{IsCoherent, SameData, SameData-IsCoherent}
use go_mpc_wallet.Session.Lookup.{get_session-SameData}
use go_mpc_wallet.Session.Update.{written_at, update_session-rows}
use go_mpc_wallet.Session.Change.{Holds, get_session-eq, lookup-change, change-Holds}
use go_mpc_wallet.Session.Finish.{completed_row}
use go_mpc_wallet.Session.Keygen.{
  activated, activate_key-ok, close_keygen-parts, close_keygen-frame, finish_keygen-open,
  finish_keygen-closed, complete_keygen-read, complete_keygen-unread,
}

module _ {R : Redis} (id public_key : String) (row : SigningSession) (w : World R)
    (c : IsCoherent id w) (found : lookup id w.sessions ≡ some row) where
  abbrev seen : World R
  seen = (get_session id w).1

  abbrev ended : Session
  ended = finished (convert_storage_session row) public_key seen.now

  -- Where cache and database agree on a session that is neither pending nor active,
  -- CompleteKeygenSession does not succeed, and changes no table and not the cache.
  pub complete_keygen-closed :
      is_open row.status ≡ false
      → ((complete_keygen_session id public_key w).0 ≢ ok tt)
        × SameData (complete_keygen_session id public_key w).1 w
  complete_keygen-closed closed = elim (Outcome-cases (get_session id w).0) [
    | inl (s, read) ↦ ground (
      arith,
      complete_keygen-read id public_key w read,
      finish_keygen-closed s id public_key seen,
      (get_session-eq id w s row c found read).0,
      get_session-SameData id w,
    )
    | inr (e, missing) ↦
        ground (arith, complete_keygen-unread id public_key w missing, get_session-SameData id w)
  ]

  completes_as_close :
      (s : Session)
      → (get_session id w).0 ≡ ok s
      → is_open row.status ≡ true
      → complete_keygen_session id public_key w
        ≡ close_keygen (convert_storage_session row) id public_key seen
  completes_as_close s read opened = ground (
    arith,
    complete_keygen-read id public_key w read,
    finish_keygen-open s id public_key seen,
    (get_session-eq id w s row c found read).0,
  )

  completed_close :
      (complete_keygen_session id public_key w).0 ≡ ok tt
      → (is_open row.status ≡ true)
        × (complete_keygen_session id public_key w
            ≡ close_keygen (convert_storage_session row) id public_key seen)
  completed_close done = elim (Outcome-cases (get_session id w).0) [
    | inl (s, read) ↦ elim (Bool-cases (is_open row.status)) [
      | inl opened ↦ (opened, completes_as_close s read opened)
      | inr closed ↦ absurd ((complete_keygen-closed closed).0 done)
    ]
    | inr (e, missing) ↦ absurd ((complete_keygen-unread id public_key w missing).0 done)
  ]

  still_found : lookup id seen.sessions ≡ some row
  still_found = ground (arith, get_session-SameData id w)

  -- Where cache and database agree on a session, and the key of its identifier has a row: a
  -- completion of key generation that succeeds found the session pending or active. The session's
  -- row is then completed, with the public key, the time of completion and the duration, and the
  -- key's row has the public key and is Active from the same time.
  pub complete_keygen_session-ok :
      (k : KeyMetadata)
      → k.key_id ≡ id
      → lookup id w.keys ≡ some k
      → (complete_keygen_session id public_key w).0 ≡ ok tt
      → (is_open row.status ≡ true)
        × (lookup id (complete_keygen_session id public_key w).1.sessions
            ≡ some (completed_row row public_key seen.now))
        × (lookup id (complete_keygen_session id public_key w).1.keys
            ≡ some (activated k public_key seen.now))
  complete_keygen_session-ok k named key_found done =
      let (opened, same) = completed_close done in
      let (updated, activates, result) =
        close_keygen-parts (convert_storage_session row) id public_key seen
          (subst (λ r. r.0 ≡ ok tt) same done) in
      ground (
        arith,
        activate_key-ok id public_key seen.now (update_session ended seen).1 k named
            (subst (λ rows. lookup id rows ≡ some k)
              (sym ((update_session-rows ended seen updated).1 ∙ (get_session-SameData id w).0.0))
              key_found)
            activates,
        lookup-change id ended row seen (c.filed row found) still_found refl updated,
      )

  -- What stays once the session has been written, whatever happens to the key.
  written_Holds :
      (s : Session)
      → is_open row.status ≡ true
      → (get_session id w).0 ≡ ok s
      → written_at seen < row.created_at + default_expiry
      → (update_session ended seen).0 ≡ ok tt
      → Holds id (completed_row row public_key seen.now) (complete_keygen_session id public_key w).1
  written_Holds s opened read early updated =
      let same = completes_as_close s read opened in
      let (rows, cache, later) =
        close_keygen-frame (convert_storage_session row) id public_key seen updated in
      let (written, agreed) =
        change-Holds id ended row seen (c.filed row found) still_found refl early updated in
      subst (λ r. Holds id (completed_row row public_key seen.now) r.1) (sym same)
        (kept written agreed rows cache later)
    where
      kept :
          {u v : World R} {r : SigningSession}
          → lookup id u.sessions ≡ some r
          → IsCoherent id u
          → v.sessions ≡ u.sessions
          → v.cache ≡ u.cache
          → u.now ≤ v.now
          → Holds id r v
      kept {u} {v} written agreed rows cache later =
          (ground arith, SameData-IsCoherent id v u rows cache later agreed)

-- Where cache and database agree on a pending or active session that CompleteKeygenSession reads,
-- and its update of the session succeeds before the session's expiry: after the call, whether or
-- not the key could be written, every further attempt fails and changes no table and not the
-- cache.
pub complete_keygen_session-stuck :
    {R : Redis} (id public_key again : String) (row : SigningSession) (s : Session) (w : World R)
    → IsCoherent id w
    → lookup id w.sessions ≡ some row
    → is_open row.status ≡ true
    → (get_session id w).0 ≡ ok s
    → written_at (get_session id w).1 < row.created_at + default_expiry
    → (update_session
        (finished (convert_storage_session row) public_key (get_session id w).1.now)
        (get_session id w).1).0
      ≡ ok tt
    → let v = (complete_keygen_session id public_key w).1 in
      ((complete_keygen_session id again v).0 ≢ ok tt)
      × SameData (complete_keygen_session id again v).1 v
complete_keygen_session-stuck id public_key again row s w c found opened read early updated =
    let v = (complete_keygen_session id public_key w).1 in
    let (written, agreed) = written_Holds id public_key row w c found s opened read early updated in
    complete_keygen-closed id again (completed_row row public_key (get_session id w).1.now) v agreed
      written refl
