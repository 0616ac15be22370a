-- ===== src/Session/Rounds.antt =====
-- store.go, SaveRoundProgress and LoadRoundProgress: a progress that is saved and loaded.
use go_mpc_wallet.Base.{
  ℕ, ◌+◌, ◌≡◌, ◌≢◌, refl, inl, inr, String, some, [], lookup, arith, eq_iff, subst, sym,
  Option-cases,
}
use go_mpc_wallet.Storage.Types.{SigningSession}
use go_mpc_wallet.Storage.World.{Redis, World, ok, arrive, Outcome-cases, query, session_json}
use go_mpc_wallet.Storage.Postgres.{get_signing_session, update_signing_session}
use go_mpc_wallet.Storage.Cache.{session_key, expiry}
use go_mpc_wallet.Storage.Cache
use go_mpc_wallet.Storage.Laws.{
  get_signing_session-ok, get_signing_session-state, update_signing_session-ok, cache_session-ok,
  cache_session-frame,
}
use go_mpc_wallet.Session.Types.{RoundProgress}
use go_mpc_wallet.Session.Manager.{find_stored}
use go_mpc_wallet.Session.Progress.{
  merge, remaining, convert_round_progress, store_progress, save_round_progress,
  load_round_progress, positive_or, nonempty_or, text_or,
}
use go_mpc_wallet.Session.Coherence.{IsCoherent}
use go_mpc_wallet.Session.Lookup.{arrive-SameData}
use go_mpc_wallet.Session.Change.{Holds, cached_copy, lookup-update_session_row}

module _ {R : Redis} (id : String) (row : SigningSession) (w : World R) where
  -- With no failure ahead the row of a coherent session is what is found.
  pub find_stored-calm :
      IsCoherent id w
      → lookup id w.sessions ≡ some row
      → w.calls ≡ []
      → ((find_stored id w).0 ≡ ok row) × ((find_stored id w).1.now ≡ w.now)
  unfolding find_stored Cache.get_session get_signing_session query arrive
  find_stored-calm c found calm =
      elim (Option-cases (R.get (session_key id) (arrive w).now w.cache)) [
        | inl missing ↦ ground arith
        | inr (e, hit) ↦
            let (s, shape, same) = c.cached (arrive w).now e (arrive-SameData w).1 hit in
            ground arith
      ]

  pub load_round_progress-calm :
      id ≢ ""
      → IsCoherent id w
      → lookup id w.sessions ≡ some row
      → w.calls ≡ []
      → (load_round_progress id w).0 ≡ ok (convert_round_progress row w.now)
  unfolding load_round_progress
  load_round_progress-calm named c found calm =
      ground (arith, eq_iff id "", find_stored-calm c found calm)

module _ {R : Redis} (p : RoundProgress) (row : SigningSession) (w : World R) where
  abbrev updated : World R
  updated = (update_signing_session (merge p row) (arrive w)).1

  store_progress-parts :
      lookup p.session_id w.sessions ≡ some row
      → (store_progress p w).0 ≡ ok tt
      → ((update_signing_session (merge p row) (arrive w)).0 ≡ ok tt)
        × ((Cache.save_session (merge p row) (remaining p.expires_at updated.now) updated).0
            ≡ ok tt)
        × ((store_progress p w).1
            ≡ (Cache.save_session (merge p row) (remaining p.expires_at updated.now) updated).1)
  unfolding store_progress Cache.update_session
  store_progress-parts found done = elim (Outcome-cases (get_signing_session p.session_id w).0) [
    | inl (s, read) ↦ elim (Outcome-cases (update_signing_session (merge p row) (arrive w)).0) [
      | inl (_, written) ↦ ground (
        arith,
        get_signing_session-ok p.session_id w read,
        get_signing_session-state p.session_id w,
      )
      | inr (e, lost) ↦ ground (
        arith,
        get_signing_session-ok p.session_id w read,
        get_signing_session-state p.session_id w,
      )
    ]
    | inr (e, missing) ↦ ground arith
  ]

  merged_named : row.session_id ≡ p.session_id → (merge p row).session_id ≡ p.session_id
  unfolding merge
  merged_named named = named

  merged_created : (merge p row).created_at ≡ row.created_at
  unfolding merge
  merged_created = refl

  stored :
      row.session_id ≡ p.session_id
      → lookup p.session_id w.sessions ≡ some row
      → (update_signing_session (merge p row) (arrive w)).0 ≡ ok tt
      → lookup p.session_id updated.sessions ≡ some (merge p row)
  unfolding merge arrive
  stored named found written = ground (
    arith,
    update_signing_session-ok (merge p row) (arrive w) written,
    lookup-update_session_row (merge p row) row w.sessions
        (subst (λ k. lookup k w.sessions ≡ some row) (sym named) found),
  )

  expiry-remaining :
      (now later : ℕ)
      → expiry later (remaining p.expires_at now) ≡ some (later + remaining p.expires_at now)
  expiry-remaining now later = ground arith

  abbrev cached_state : World R
  cached_state = (Cache.save_session (merge p row) (remaining p.expires_at updated.now) updated).1

  in_cache :
      row.session_id ≡ p.session_id
      → (Cache.save_session (merge p row) (remaining p.expires_at updated.now) updated).0 ≡ ok tt
      → cached_state.cache
        ≡ R.set
            (session_key p.session_id)
            (session_json (merge p row))
            (some ((arrive updated).now + remaining p.expires_at updated.now))
            updated.cache
  in_cache named kept = ground (
    arith,
    cache_session-ok (merge p row) (remaining p.expires_at updated.now) updated kept,
    expiry-remaining updated.now (arrive updated).now,
    merged_named named,
  )

  in_row :
      row.session_id ≡ p.session_id
      → lookup p.session_id w.sessions ≡ some row
      → (update_signing_session (merge p row) (arrive w)).0 ≡ ok tt
      → lookup p.session_id cached_state.sessions ≡ some (merge p row)
  in_row named found written = ground (
    arith,
    stored named found written,
    cache_session-frame (merge p row) (remaining p.expires_at updated.now) updated,
  )

  -- A progress that has been saved is in the row and, for a minute at least, in the cache.
  store_progress-Holds :
      row.session_id ≡ p.session_id
      → lookup p.session_id w.sessions ≡ some row
      → (store_progress p w).0 ≡ ok tt
      → Holds p.session_id (merge p row) (store_progress p w).1
  store_progress-Holds named found done =
      let (written, kept, same) = store_progress-parts found done in
      subst (Holds p.session_id (merge p row)) (sym same) (
        in_row named found written,
        record {
          filed = λ x e. ground (arith, in_row named found written, merged_named named);
          cached = λ t e _ shown. (
            merge p row,
            cached_copy R (session_key p.session_id) (merge p row)
                ((arrive updated).now + remaining p.expires_at updated.now) t updated.cache
                (subst (λ db. R.get (session_key p.session_id) t db ≡ some e) (in_cache named kept)
                  shown),
            in_row named found written,
          );
        },
      )

  save_round_progress-store :
      p.session_id ≢ "" → save_round_progress (some p) w ≡ store_progress p w
  unfolding save_round_progress
  save_round_progress-store present = ground (arith, eq_iff p.session_id "")

  loaded :
      p.session_id ≢ ""
      → row.session_id ≡ p.session_id
      → lookup p.session_id w.sessions ≡ some row
      → (store_progress p w).0 ≡ ok tt
      → (store_progress p w).1.calls ≡ []
      → (load_round_progress p.session_id (store_progress p w).1).0
        ≡ ok (convert_round_progress (merge p row) (store_progress p w).1.now)
  loaded present named found done calm =
      let (in_table, agreed) = store_progress-Holds named found done in
      load_round_progress-calm p.session_id (merge p row) (store_progress p w).1 present agreed
        in_table calm

  -- After SaveRoundProgress has succeeded for a progress of a session that has an identifier and a
  -- row, and where no later call fails, LoadRoundProgress gives the round, the number of rounds,
  -- the nodes, the status and the message that the progress set, and for each that it did not set
  -- what the row had.
  pub load-save_round_progress :
      p.session_id ≢ ""
      → row.session_id ≡ p.session_id
      → lookup p.session_id w.sessions ≡ some row
      → (save_round_progress (some p) w).0 ≡ ok tt
      → (save_round_progress (some p) w).1.calls ≡ []
      → (q : RoundProgress) × ((load_round_progress p.session_id
            (save_round_progress (some p) w).1).0
          ≡ ok q)
        × (q.round ≡ positive_or p.round row.current_round)
        × (q.total_rounds ≡ positive_or p.total_rounds row.total_rounds)
        × (q.node_ids ≡ nonempty_or p.node_ids row.participating_nodes)
        × (q.status ≡ text_or p.status row.status)
        × (q.note ≡ text_or p.note row.signature)
  unfolding merge convert_round_progress
  load-save_round_progress present named found done calm =
      let same = save_round_progress-store present in
      (
        convert_round_progress (merge p row) (store_progress p w).1.now,
        ground (
          arith,
          loaded present named found (subst (λ r. r.0 ≡ ok tt) same done)
              (subst (λ r. r.1.calls ≡ []) same calm),
        ),
        refl,
        refl,
        refl,
        refl,
        refl,
      )
