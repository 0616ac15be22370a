-- ===== src/Session/Finish.antt =====
-- manager.go, CompleteSession and CancelSession: how a session ends.
use go_mpc_wallet.Base.{
  ap, ℕ, ◌+◌, ◌<◌, ◌≡◌, refl, inl, inr, String, none, some, ◌≤◌, lookup, arith, subst, sym,
}
use go_mpc_wallet.Base.Int.{sub_ℕ, quot}
use go_mpc_wallet.Storage.Types.{SigningSession, millisecond}
use go_mpc_wallet.Storage.World.{Redis, World, Entry, session_json, ok, Outcome-cases}
use go_mpc_wallet.Storage.Cache.{session_key}
use go_mpc_wallet.Session.Types.{
  Session, convert_storage_session, completed, cancelled, default_expiry,
}
use go_mpc_wallet.Session.Manager.{
  complete_session, cancel_session, update_session, get_session, finished,
}
use go_mpc_wallet.Session.Coherence.{IsCoherent}
use go_mpc_wallet.Session.Lookup.{get_session-SameData}
use go_mpc_wallet.Session.Update.{written_at}
use go_mpc_wallet.Session.Change.{Holds, get_session-eq, lookup-change, change-Holds}

-- The row of a session that ended at `now`.
abbrev pub completed_row : SigningSession → String → ℕ → SigningSession
completed_row row signature now = record row {
  status = completed;
  signature = signature;
  completed_at = some now;
  duration_ms = quot (sub_ℕ now row.created_at) millisecond;
}

-- A stored session, but for the time of its completion.
abbrev pub but_time : SigningSession → SigningSession
but_time s = record s { completed_at = none }

-- The row is this session, and so is whatever the cache shows for it from now on; each has a time of
-- completion, which may differ.
abbrev pub HoldsButTime : {R : Redis} → String → SigningSession → World R → Type 0
HoldsButTime {R} id final w =
    ((row : SigningSession) × (ended : ℕ) × (lookup id w.sessions ≡ some row)
      × (but_time row ≡ but_time final)
      × (row.completed_at ≡ some ended))
    × ((t : ℕ) (e : Entry)
        → w.now ≤ t
        → R.get (session_key id) t w.cache ≡ some e
        → (s : SigningSession) × (ended : ℕ) × (e ≡ session_json s)
          × (but_time s ≡ but_time final)
          × (s.completed_at ≡ some ended))

module _ {R : Redis} (id : String) (row : SigningSession) (w : World R) (c : IsCoherent id w)
    (found : lookup id w.sessions ≡ some row) where
  -- The state in which the session has been read, and when.
  abbrev pub reader : World R
  reader = (get_session id w).1

  still_found : lookup id reader.sessions ≡ some row
  still_found = ground (arith, get_session-SameData id w)

  complete_session-update :
      (signature : String)
      → (complete_session id signature w).0 ≡ ok tt
      → ((update_session (finished (convert_storage_session row) signature reader.now) reader).0
          ≡ ok tt)
        × ((complete_session id signature w).1
            ≡ (update_session
                (finished (convert_storage_session row) signature reader.now)
                reader).1)
  unfolding complete_session
  complete_session-update signature done = elim (Outcome-cases (get_session id w).0) [
    | inl (s, read) ↦ ground (arith, (get_session-eq id w s row c found read).0)
    | inr (e, missing) ↦ ground arith
  ]

  cancel_session-update :
      (cancel_session id w).0 ≡ ok tt
      → ((update_session (record (convert_storage_session row) { status = cancelled }) reader).0
          ≡ ok tt)
        × ((cancel_session id w).1
            ≡ (update_session
                (record (convert_storage_session row) { status = cancelled })
                reader).1)
  unfolding cancel_session
  cancel_session-update done = elim (Outcome-cases (get_session id w).0) [
    | inl (s, read) ↦ ground (arith, (get_session-eq id w s row c found read).0)
    | inr (e, missing) ↦ ground arith
  ]

  named : {s : Session} → (get_session id w).0 ≡ ok s → row.session_id ≡ id
  named {s} read = (get_session-eq id w s row c found read).1

  -- Where cache and database agree on a session, a CompleteSession that succeeds, whatever the
  -- session's status was, gives its row the status completed, the signature, the time and the
  -- duration in milliseconds, and keeps the other fields.
  pub complete_session-ok :
      (signature : String)
      → (complete_session id signature w).0 ≡ ok tt
      → lookup id (complete_session id signature w).1.sessions
        ≡ some (completed_row row signature reader.now)
  complete_session-ok signature done =
      let (updated, same) = complete_session-update signature done in
      ground (
        arith,
        lookup-change id (finished (convert_storage_session row) signature reader.now) row reader
            (c.filed row found) still_found refl updated,
      )

  completed-Holds :
      (signature : String)
      → written_at reader < row.created_at + default_expiry
      → (complete_session id signature w).0 ≡ ok tt
      → Holds id (completed_row row signature reader.now) (complete_session id signature w).1
  completed-Holds signature early done =
      let (updated, same) = complete_session-update signature done in
      subst (Holds id (completed_row row signature reader.now)) (sym same) (
        change-Holds id (finished (convert_storage_session row) signature reader.now) row reader
          (c.filed row found) still_found refl early updated)

  -- Where cache and database agree on a session, a CompleteSession that succeeds, and writes the
  -- database before the session's expiry, leaves them in agreement again but for the time of
  -- completion, of which the row keeps only microseconds: the row, and whatever the cache shows
  -- from then on, is the session with the status completed, the signature and the duration, and
  -- with some time of completion.
  pub complete_session-Holds :
      (signature : String)
      → written_at reader < row.created_at + default_expiry
      → (complete_session id signature w).0 ≡ ok tt
      → HoldsButTime id (completed_row row signature reader.now) (complete_session id signature w).1
  complete_session-Holds signature early done =
      let (stored, coherent) = completed-Holds signature early done in
      let final = completed_row row signature reader.now in
      (
        (final, reader.now, stored, refl, refl),
        λ t e later shown.
            let (s, shape, it) = coherent.cached t e later shown in
            let same : s ≡ final = ground (arith, it, stored) in
            (s, reader.now, shape, ap but_time same, ap (λ r. r.completed_at) same),
      )

  -- Where cache and database agree on a session, a CancelSession that succeeds, whatever the
  -- session's status was, gives its row the status cancelled, and keeps the other fields.
  pub cancel_session-ok :
      (cancel_session id w).0 ≡ ok tt
      → lookup id (cancel_session id w).1.sessions ≡ some (record row { status = cancelled })
  cancel_session-ok done =
      let (updated, same) = cancel_session-update done in
      ground (
        arith,
        lookup-change id (record (convert_storage_session row) { status = cancelled }) row reader
            (c.filed row found) still_found refl updated,
      )
