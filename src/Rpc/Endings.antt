-- ===== src/Rpc/Endings.antt =====
-- grpc/server.go: how a signing's goroutine and a control message end a session.
use go_mpc_wallet.Base.{
  ◌≡◌, refl, inl, inr, String, true, false, none, some, List, lookup, str_eq, arith, subst, sym,
  Bool-cases, eq_iff, str_eq_self, ℕ,
}
use go_mpc_wallet.Storage.Types.{SigningSession, KeyMetadata}
use go_mpc_wallet.Storage.World.{Redis, World, Outcome, ok, err, Error, Outcome-cases}
use go_mpc_wallet.Session.Types.{Session, convert_storage_session, failed, is_open}
use go_mpc_wallet.Session.Manager.{
  get_session, update_session, complete_session, complete_keygen_session,
}
use go_mpc_wallet.Session.Coherence.{IsCoherent, SameData-IsCoherent}
use go_mpc_wallet.Session.Lookup.{get_session-SameData}
use go_mpc_wallet.Session.Change.{get_session-eq, lookup-change}
use go_mpc_wallet.Session.Finish.{completed_row, complete_session-ok}
use go_mpc_wallet.Session.Keygen.{activated}
use go_mpc_wallet.Session.Activation.{complete_keygen_session-ok}
use go_mpc_wallet.Node.Consul.{trim_prefix}
use go_mpc_wallet.Signing.Types.{StartSign, Signature}
use go_mpc_wallet.Rpc.Types.{ShareRequest, Engines, Config, sign_task, Server, session_or_key}
use go_mpc_wallet.Rpc.Tasks.{
  run_task, run_sign, mark_failed, finish_sign, sign_message, sign_request, engine_exact,
}
use go_mpc_wallet.Rpc.Server.{
  submit_signature_share, handle_protocol_message, keygen_message, is_keygen, is_minus_one,
}

none-some : {A : Type 0} {a : A} → none ≡ some a → ⊥
none-some same = ground arith

module _ {R : Redis} (id : String) (row : SigningSession) (w : World R) (c : IsCoherent id w)
    (found : lookup id w.sessions ≡ some row) where
  abbrev seen : World R
  seen = (get_session id w).1

  still_found : lookup id seen.sessions ≡ some row
  still_found = ground (arith, get_session-SameData id w)

  mark_failed-row :
      (s : Session)
      → (get_session id w).0 ≡ ok s
      → (update_session (record (convert_storage_session row) { status = failed }) seen).0 ≡ ok tt
      → lookup id (mark_failed id w).sessions ≡ some (record row { status = failed })
  unfolding mark_failed
  mark_failed-row s read updated = ground (
    arith,
    (get_session-eq id w s row c found read).0,
    lookup-change id (record (convert_storage_session row) { status = failed }) row seen
        (c.filed row found) still_found refl updated,
  )

module _ {R : Redis} {E : Engines R} (c : Config E) (req : StartSign) (msg : List ℕ) (s : Server E)
    (l : E.Local) (v : World R) (row : SigningSession) (given : sign_message req ≡ some msg)
    (coherent : IsCoherent (session_or_key req.session_id req.key_id) v)
    (found : lookup (session_or_key req.session_id req.key_id) v.sessions ≡ some row) where
  abbrev id : String
  id = session_or_key req.session_id req.key_id

  sign_task-world :
      (r : Outcome Signature)
      → E.engine_sign (engine_exact c req.protocol) id (sign_request req msg) s.inner s.world
        ≡ (r, l, v)
      → (run_task c (sign_task req) s).world ≡ finish_sign id r v
  unfolding run_task run_sign
  sign_task-world r ran = ground arith

  -- A goroutine of StartSign whose ThresholdSign fails, where cache and database then agree on the
  -- session, and reading it and writing it back succeed: the session is failed, whatever its
  -- status was, and keeps its other fields. A session that another node has completed is failed
  -- too.
  pub sign_task-failure :
      (e : Error) (x : Session)
      → E.engine_sign (engine_exact c req.protocol) id (sign_request req msg) s.inner s.world
        ≡ (err e, l, v)
      → (get_session id v).0 ≡ ok x
      → (update_session
          (record (convert_storage_session row) { status = failed })
          (get_session id v).1).0
        ≡ ok tt
      → lookup id (run_task c (sign_task req) s).world.sessions
        ≡ some (record row { status = failed })
  unfolding finish_sign
  sign_task-failure e x ran read updated =
      ground
        (arith, sign_task-world (err e) ran, mark_failed-row id row v coherent found x read updated)

  -- A goroutine of StartSign whose ThresholdSign gives a signature with a text, where cache and
  -- database then agree on the session, and CompleteSession succeeds: the session is completed
  -- with that text, the time and the duration, and keeps its other fields.
  pub sign_task-success :
      (sig : Signature)
      → E.engine_sign (engine_exact c req.protocol) id (sign_request req msg) s.inner s.world
        ≡ (ok sig, l, v)
      → str_eq sig.hex "" ≡ false
      → (complete_session id sig.hex v).0 ≡ ok tt
      → lookup id (run_task c (sign_task req) s).world.sessions
        ≡ some (completed_row row sig.hex (get_session id v).1.now)
  unfolding finish_sign
  sign_task-success sig ran named done = ground (
    arith,
    sign_task-world (ok sig) ran,
    complete_session-ok id row v coherent found sig.hex done,
  )

module _ {R : Redis} {E : Engines R} (c : Config E) (req : ShareRequest) (s : Server E)
    (public_key : String) (row : SigningSession) (k : KeyMetadata)
    (says : trim_prefix "DKG_COMPLETE:" req.share_data ≡ some public_key)
    (coherent : IsCoherent req.session_id s.world)
    (found : lookup req.session_id s.world.sessions ≡ some row)
    (keygen : row.key_id ≡ req.session_id) where
  abbrev pub after_read : World R
  after_read = (get_session req.session_id s.world).1

  not_start : str_eq req.share_data "DKG_START" ≡ false
  unfolding trim_prefix
  not_start = elim (Bool-cases (str_eq req.share_data "DKG_START")) [
    | inr other ↦ other
    | inl same ↦ absurd (
        none-some (
          subst (λ t. trim_prefix "DKG_COMPLETE:" t ≡ some public_key)
            ((eq_iff req.share_data "DKG_START").0 same) says))
  ]

  concerns :
      (x : Session)
      → (get_session req.session_id s.world).0 ≡ ok x
      → is_keygen c req.session_id x ≡ true
  unfolding is_keygen
  concerns x read = ground (
    arith,
    (get_session-eq req.session_id s.world x row coherent found read).0,
    str_eq_self req.session_id,
  )

  announced :
      (x : Session) (t : Server E)
      → ((keygen_message c req.session_id x req.node_id req.share_data (is_minus_one req.round) t).0
            ≡ ok tt
          → (complete_keygen_session req.session_id public_key t.world).0 ≡ ok tt)
        × ((keygen_message c req.session_id x req.node_id req.share_data
              (is_minus_one req.round)
              t).1.world
            ≡ (complete_keygen_session req.session_id public_key t.world).1)
  unfolding keygen_message
  announced x t = ground (arith, not_start)

  announces :
      (x : Session)
      → (get_session req.session_id s.world).0 ≡ ok x
      → ((submit_signature_share c req s).0.accepted ≡ true
          → (complete_keygen_session req.session_id public_key after_read).0 ≡ ok tt)
        × ((submit_signature_share c req s).1.world
            ≡ (complete_keygen_session req.session_id public_key after_read).1)
  unfolding submit_signature_share handle_protocol_message
  announces x read = ground (arith, concerns x read, announced x (record s { world = after_read }))

  unread :
      (e : Error)
      → (get_session req.session_id s.world).0 ≡ err e
      → (submit_signature_share c req s).0.accepted ≡ true
      → ⊥
  unfolding submit_signature_share handle_protocol_message
  unread e missing accepted = ground arith

  -- A call of SubmitSignatureShare by any node, whose data is DKG_COMPLETE: followed by a text,
  -- for a session of key generation that cache and database agree on and whose key has a row under
  -- its own identifier: where it is accepted, the session was pending or active, and the key is
  -- Active with that text for its public key.
  pub submit_signature_share-activates :
      k.key_id ≡ req.session_id
      → lookup req.session_id s.world.keys ≡ some k
      → (submit_signature_share c req s).0.accepted ≡ true
      → (is_open row.status ≡ true)
        × (lookup req.session_id (submit_signature_share c req s).1.world.keys
            ≡ some (activated k public_key (get_session req.session_id after_read).1.now))
  submit_signature_share-activates named key_found accepted =
      elim (Outcome-cases (get_session req.session_id s.world).0) [
        | inr (e, missing) ↦ absurd (unread e missing accepted)
        | inl (x, read) ↦
            let same_data = get_session-SameData req.session_id s.world in
            let (completes, world) = announces x read in
            let (opened, _, key_row) =
              complete_keygen_session-ok req.session_id public_key row after_read
                (SameData-IsCoherent req.session_id after_read s.world same_data.0.2 same_data.0.3
                  same_data.1 coherent)
                (subst (λ rows. lookup req.session_id rows ≡ some row) (sym same_data.0.2) found) k
                named
                (subst (λ rows. lookup req.session_id rows ≡ some k) (sym same_data.0.0) key_found)
                (completes accepted) in
            (
              opened,
              subst
                  (λ u.
                    lookup req.session_id u.keys
                    ≡ some (activated k public_key (get_session req.session_id after_read).1.now))
                  (sym world) key_row,
            )
      ]
