-- ===== src/Session/Keygen.antt =====
-- manager.go, CompleteKeygenSession: the end of distributed key generation, which writes the session
-- and then the key, with no transaction around the two.
use go_mpc_wallet.Base.{
  ℕ, ◌≤◌, ◌≡◌, ◌≢◌, inl, inr, String, true, false, some, lookup, arith, subst, sym, ◌+++◌,
}
use go_mpc_wallet.Storage.Types.{KeyMetadata}
use go_mpc_wallet.Storage.World.{Redis, World, ok, err, Error, message, arrive, Outcome-cases}
use go_mpc_wallet.Storage.Postgres.{get_key_metadata, update_key_metadata}
use go_mpc_wallet.Storage.Laws.{
  update_key_metadata-ok, update_key_metadata-frame, get_key_metadata-ok, get_key_metadata-state,
}
use go_mpc_wallet.Storage.Rows.{lookup-update_key}
use go_mpc_wallet.Session.Types.{Session, is_open}
use go_mpc_wallet.Session.Manager.{
  complete_keygen_session, finish_keygen, close_keygen, activate_key, update_session, get_session,
  finished,
}

-- The row of a key that is in use from `now` on.
abbrev pub activated : KeyMetadata → String → ℕ → KeyMetadata
activated k public_key now = record k {
  public_key = public_key;
  status = "Active";
  updated_at = now;
}

module _ {R : Redis} (id public_key : String) (now : ℕ) (w : World R) where
  -- Once the session has been written the key is read, and written back.
  activate_key-parts :
      (activate_key id public_key now w).0 ≡ ok tt
      → (k : KeyMetadata) × (lookup id w.keys ≡ some k)
        × ((update_key_metadata (activated k public_key now) (arrive w)).0 ≡ ok tt)
        × ((activate_key id public_key now w).1
            ≡ (update_key_metadata (activated k public_key now) (arrive w)).1)
  unfolding activate_key
  activate_key-parts done = elim (Outcome-cases (get_key_metadata id w).0) [
    | inl (k, read) ↦ (
      k,
      get_key_metadata-ok id w read,
      ground (arith, get_key_metadata-state id w),
      ground (arith, get_key_metadata-state id w),
    )
    | inr (e, missing) ↦ ground arith
  ]

  pub activate_key-ok :
      (k : KeyMetadata)
      → k.key_id ≡ id
      → lookup id w.keys ≡ some k
      → (activate_key id public_key now w).0 ≡ ok tt
      → (lookup id (activate_key id public_key now w).1.keys ≡ some (activated k public_key now))
        × ((activate_key id public_key now w).1.sessions ≡ w.sessions)
  unfolding arrive
  activate_key-ok k named found done =
      let (k', found', updated, same) = activate_key-parts done in
      ground (
        arith,
        update_key_metadata-ok (activated k' public_key now) (arrive w) updated,
        lookup-update_key (activated k public_key now) w.keys k
            (subst (λ i. lookup i w.keys ≡ some k) (sym named) found),
      )

  -- However it ends, it leaves the sessions and the cache alone.
  activate_key-frame :
      let v = (activate_key id public_key now w).1 in
      (v.sessions ≡ w.sessions) × (v.cache ≡ w.cache) × (w.now ≤ v.now)
  unfolding activate_key arrive
  activate_key-frame = elim (Outcome-cases (get_key_metadata id w).0) [
    | inl (k, read) ↦ ground (
      arith,
      get_key_metadata-state id w,
      update_key_metadata-frame (activated k public_key now) (arrive w),
    )
    | inr (e, missing) ↦ ground (arith, get_key_metadata-state id w)
  ]

module _ {R : Redis} (s : Session) (id public_key : String) (w : World R) where
  pub close_keygen-parts :
      (close_keygen s id public_key w).0 ≡ ok tt
      → ((update_session (finished s public_key w.now) w).0 ≡ ok tt)
        × ((activate_key id public_key w.now (update_session (finished s public_key w.now) w).1).0
            ≡ ok tt)
        × ((close_keygen s id public_key w).1
            ≡ (activate_key id public_key w.now
                (update_session (finished s public_key w.now) w).1).1)
  unfolding close_keygen
  close_keygen-parts done = ground arith

  pub finish_keygen-open :
      is_open s.status ≡ true → finish_keygen s id public_key w ≡ close_keygen s id public_key w
  unfolding finish_keygen
  finish_keygen-open h = ground arith

  pub finish_keygen-closed :
      is_open s.status ≡ false
      → finish_keygen s id public_key w
        ≡ (err (message (◌+++◌ "cannot complete session in status " s.status)), w)
  unfolding finish_keygen
  finish_keygen-closed h = ground arith

  -- Once the session is written, what becomes of the key leaves the session and the cache alone.
  pub close_keygen-frame :
      (update_session (finished s public_key w.now) w).0 ≡ ok tt
      → let u = (update_session (finished s public_key w.now) w).1 in
        let v = (close_keygen s id public_key w).1 in
        (v.sessions ≡ u.sessions) × (v.cache ≡ u.cache) × (u.now ≤ v.now)
  unfolding close_keygen
  close_keygen-frame done = ground (
    arith,
    activate_key-frame id public_key w.now (update_session (finished s public_key w.now) w).1,
  )

module _ {R : Redis} (id public_key : String) (w : World R) where
  pub complete_keygen-read :
      {s : Session}
      → (get_session id w).0 ≡ ok s
      → complete_keygen_session id public_key w ≡ finish_keygen s id public_key (get_session id w).1
  unfolding complete_keygen_session
  complete_keygen-read h = ground arith

  pub complete_keygen-unread :
      {e : Error}
      → (get_session id w).0 ≡ err e
      → ((complete_keygen_session id public_key w).0 ≢ ok tt)
        × ((complete_keygen_session id public_key w).1 ≡ (get_session id w).1)
  unfolding complete_keygen_session
  complete_keygen-unread h = ground arith
