-- ===== src/Session/Join.antt =====
-- manager.go, JoinSession: who takes part in a session, and when a node is refused.
use go_mpc_wallet.Base.{
  ◌+◌, ◌<◌, ◌≡◌, ◌≢◌, inl, inr, String, true, false, some, lookup, arith, Bool-cases, subst, ◌+++◌,
}
use go_mpc_wallet.Storage.Types.{SigningSession}
use go_mpc_wallet.Storage.World.{Redis, World, ok, err, Error, message, Outcome-cases}
use go_mpc_wallet.Session.Types.{Session, convert_storage_session, is_open, default_expiry}
use go_mpc_wallet.Session.Manager.{
  join_session, update_session, get_session, contains, joined, admit,
}
use go_mpc_wallet.Session.Coherence.{IsCoherent, SameData, SameData-IsCoherent}
use go_mpc_wallet.Session.Lookup.{get_session-SameData}
use go_mpc_wallet.Session.Members.{
  AreDistinct, joined_row, contains-joined_row, joined_row-AreDistinct,
}
use go_mpc_wallet.Session.Update.{written_at}
use go_mpc_wallet.Session.Change.{get_session-eq, lookup-change, change-Holds}

module _ {R : Redis} (id n : String) (w : World R) where
  join_session-read :
      {s : Session}
      → (get_session id w).0 ≡ ok s
      → join_session id n w ≡ admit s n (get_session id w).1
  unfolding join_session
  join_session-read h = ground arith

  join_session-unread : {e : Error} → (get_session id w).0 ≡ err e → (join_session id n w).0 ≢ ok tt
  unfolding join_session
  join_session-unread h = ground arith

  join_session-unread_state :
      {e : Error} → (get_session id w).0 ≡ err e → (join_session id n w).1 ≡ (get_session id w).1
  unfolding join_session
  join_session-unread_state h = ground arith

module _ {R : Redis} (s : Session) (n : String) (w : World R) where
  admit-open : (admit s n w).0 ≡ ok tt → is_open s.status ≡ true
  unfolding admit
  admit-open done = ground arith

  admit-old :
      (admit s n w).0 ≡ ok tt → contains n s.participating_nodes ≡ true → (admit s n w).1 ≡ w
  unfolding admit
  admit-old done old = ground arith

  admit-new :
      (admit s n w).0 ≡ ok tt
      → contains n s.participating_nodes ≡ false
      → ((update_session (joined s n) w).0 ≡ ok tt)
        × ((admit s n w).1 ≡ (update_session (joined s n) w).1)
  unfolding admit
  admit-new done new = ground arith

  admit-closed :
      is_open s.status ≡ false
      → admit s n w ≡ (err (message (◌+++◌ "session is not joinable: status=" s.status)), w)
  unfolding admit
  admit-closed h = ground arith

module _ {R : Redis} (id n : String) (row : SigningSession) (w : World R) (c : IsCoherent id w)
    (found : lookup id w.sessions ≡ some row) where
  -- The session that JoinSession admits the node to, if it gets so far.
  reader : World R
  reader = (get_session id w).1

  entered :
      (s : Session)
      → (get_session id w).0 ≡ ok s
      → (join_session id n w).0 ≡ ok tt
      → (s ≡ convert_storage_session row)
        × ((admit s n reader).0 ≡ ok tt)
        × (join_session id n w ≡ admit s n reader)
  unfolding reader
  entered s read done =
      ground (arith, get_session-eq id w s row c found read, join_session-read id n w read)

  still_found : lookup id reader.sessions ≡ some row
  unfolding reader
  still_found = ground (arith, get_session-SameData id w)

  -- What a node that is new to the session leads to.
  entered_new :
      (s : Session)
      → (get_session id w).0 ≡ ok s
      → (join_session id n w).0 ≡ ok tt
      → contains n row.participating_nodes ≡ false
      → ((update_session (joined s n) reader).0 ≡ ok tt)
        × (join_session id n w ≡ admit s n reader)
        × ((admit s n reader).1 ≡ (update_session (joined s n) reader).1)
        × (s ≡ convert_storage_session row)
        × (s.session_id ≡ id)
  entered_new s read done new =
      let (shape, admitted, same) = entered s read done in
      ground (
        arith,
        admit-new s n reader admitted (ground arith),
        (get_session-eq id w s row c found read).1,
      )

  entered_row :
      (s : Session)
      → (get_session id w).0 ≡ ok s
      → (join_session id n w).0 ≡ ok tt
      → (is_open row.status ≡ true)
        × (lookup id (join_session id n w).1.sessions ≡ some (joined_row row n))
  unfolding reader
  entered_row s read done = elim (Bool-cases (contains n row.participating_nodes)) [
    | inl old ↦
        let (shape, admitted, same) = entered s read done in
        ground (
          arith,
          admit-open s n reader admitted,
          admit-old s n reader admitted (ground arith),
          get_session-SameData id w,
        )
    | inr new ↦
        let (shape, admitted, same) = entered s read done in
        let (updated, _, written, _, named) = entered_new s read done new in
        ground (
          arith,
          admit-open s n reader admitted,
          lookup-change id (joined s n) row reader named still_found (ground arith) updated,
        )
  ]

  -- Where cache and database agree on a session whose nodes are distinct, a join that succeeds
  -- found the session pending or active. In the session's row the node is then among the nodes, at
  -- the end if it is new, the nodes are distinct, and a session with a new node is active.
  pub join_session-ok :
      AreDistinct row.participating_nodes
      → (join_session id n w).0 ≡ ok tt
      → (is_open row.status ≡ true)
        × (lookup id (join_session id n w).1.sessions ≡ some (joined_row row n))
        × (contains n (joined_row row n).participating_nodes ≡ true)
        × AreDistinct (joined_row row n).participating_nodes
  join_session-ok distinct done = elim (Outcome-cases (get_session id w).0) [
    | inl (s, read) ↦
        let (open_status, written) = entered_row s read done in
        (open_status, written, contains-joined_row row n, joined_row-AreDistinct row n distinct)
    | inr (e, missing) ↦ absurd (join_session-unread id n w missing done)
  ]

  entered_Holds :
      (s : Session)
      → written_at reader < row.created_at + default_expiry
      → (get_session id w).0 ≡ ok s
      → (join_session id n w).0 ≡ ok tt
      → IsCoherent id (join_session id n w).1
  unfolding reader
  entered_Holds s early read done = elim (Bool-cases (contains n row.participating_nodes)) [
    | inl old ↦
        let (shape, admitted, same) = entered s read done in
        let quiet = admit-old s n reader admitted (ground arith) in
        SameData-IsCoherent id (join_session id n w).1 w (ground (arith, get_session-SameData id w))
          (ground (arith, get_session-SameData id w)) (ground (arith, get_session-SameData id w)) c
    | inr new ↦
        let (updated, same, written, shape, named) = entered_new s read done new in
        subst (IsCoherent id) (ground arith)
          (change-Holds id (joined s n) row reader named still_found (ground arith) (ground arith)
            updated).1
  ]

  -- Where cache and database agree on a session, a join that succeeds, and whose first write to
  -- the database, if it makes one, would come before the session's expiry, leaves them in
  -- agreement again.
  pub join_session-IsCoherent :
      written_at (get_session id w).1 < row.created_at + default_expiry
      → (join_session id n w).0 ≡ ok tt
      → IsCoherent id (join_session id n w).1
  unfolding reader
  join_session-IsCoherent early done = elim (Outcome-cases (get_session id w).0) [
    | inl (s, read) ↦ entered_Holds s early read done
    | inr (e, missing) ↦ absurd (join_session-unread id n w missing done)
  ]

  -- Where cache and database agree on a session that is neither pending nor active, JoinSession
  -- does not succeed, and changes no table and not the cache.
  pub join_session-closed :
      is_open row.status ≡ false
      → ((join_session id n w).0 ≢ ok tt) × SameData (join_session id n w).1 w
  unfolding reader
  join_session-closed closed = elim (Outcome-cases (get_session id w).0) [
    | inl (s, read) ↦ ground (
      arith,
      join_session-read id n w read,
      admit-closed s n reader,
      (get_session-eq id w s row c found read).0,
      get_session-SameData id w,
    )
    | inr (e, missing) ↦ (
      join_session-unread id n w missing,
      ground (arith, join_session-unread_state id n w missing, get_session-SameData id w),
    )
  ]
