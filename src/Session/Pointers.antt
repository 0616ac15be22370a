-- ===== src/Session/Pointers.antt =====
-- store.go, AppendWAL and ReplayWAL: the log agrees with the queue of one session.
use go_mpc_wallet.Base.{
  inl, inr, map, true, false, Bool-cases, ℕ, ◌+◌, ◌≡◌, subst, sym, String, none, some, List, [],
  ◌∷◌, ◌++◌, lookup, if◌then◌else◌, str_eq, eq_iff, length, length-append, length-map, arith,
  lookup-insert, lookup-erase,
}
use go_mpc_wallet.Session.Types.{WalRecord}
use go_mpc_wallet.Session.Log.{
  Wal, or_zero, next_sequence, stamped, waiting, put_record, append_wal, replay_wal,
}
use go_mpc_wallet.Session.Queue.{
  LogCall, append, replay, log_run, member, IsFresh, queue_step, queue_run, Within, Within-more,
  Within-append, Within-absent, map-written, map-append_one,
}

-- The log and the queue of one session: its pointers lead to the queue's records, the counter is their
-- number, and the records that are not used are as they were given.
pub record Agrees (given : ℕ → WalRecord) (used : List ℕ) (id : String) (q : List WalRecord)
    (w : Wal) : Type 0 where
  pub held : map w.heap (waiting w id) ≡ q
  pub within : Within used (waiting w id)
  pub unused : (p : ℕ) → member p used ≡ false → w.heap p ≡ given p
  pub counted : or_zero (lookup id w.sequences) ≡ length (waiting w id)

module _ (given : ℕ → WalRecord) (id : String) where
  waiting-put_record :
      (p now : ℕ) (w : Wal)
      → waiting (put_record w p now) id
        ≡ (if str_eq (w.heap p).session_id id then waiting w id ++ p ∷ [] else waiting w id)
  unfolding put_record waiting
  waiting-put_record p now w = ground (
    arith,
    eq_iff (w.heap p).session_id id,
    lookup-insert (w.heap p).session_id id (waiting w (w.heap p).session_id ++ p ∷ []) w.records,
  )

  sequences-put_record :
      (p now : ℕ) (w : Wal)
      → or_zero (lookup id (put_record w p now).sequences) ≡ (
          if str_eq (w.heap p).session_id id
          then or_zero (lookup id w.sequences) + 1
          else or_zero (lookup id w.sequences))
  unfolding put_record next_sequence
  sequences-put_record p now w = ground (
    arith,
    eq_iff (w.heap p).session_id id,
    lookup-insert (w.heap p).session_id id (next_sequence w (w.heap p).session_id) w.sequences,
  )

  unused-put_record :
      (p now : ℕ) (used : List ℕ) (q : List WalRecord) (w : Wal)
      → Agrees given used id q w
      → (o : ℕ) → member o (p ∷ used) ≡ false
      → (put_record w p now).heap o ≡ given o
  unfolding put_record member
  unused-put_record p now used q w agrees o free = ground (arith, agrees.unused o)

  put_own-held :
      (p now : ℕ) (used : List ℕ) (q : List WalRecord) (w : Wal)
      → member p used ≡ false
      → Agrees given used id q w
      → (w.heap p).session_id ≡ id
      → map (put_record w p now).heap (waiting w id ++ p ∷ [])
        ≡ q ++ stamped (w.heap p) (length q + 1) now ∷ []
  unfolding put_record next_sequence
  put_own-held p now used q w new agrees own =
      let heap = (put_record w p now).heap in
      ground (
        arith,
        own,
        agrees.held,
        agrees.counted,
        length-map (waiting w id) w.heap,
        map-append_one heap (waiting w id) p,
        map-written p (stamped (w.heap p) (next_sequence w (w.heap p).session_id) now) w.heap
            (waiting w id) (Within-absent p used (waiting w id) new agrees.within),
      )

  put_other-held :
      (p now : ℕ) (used : List ℕ) (q : List WalRecord) (w : Wal)
      → member p used ≡ false
      → Agrees given used id q w
      → map (put_record w p now).heap (waiting w id) ≡ q
  unfolding put_record
  put_other-held p now used q w new agrees = ground (
    arith,
    agrees.held,
    map-written p (stamped (w.heap p) (next_sequence w (w.heap p).session_id) now) w.heap
        (waiting w id) (Within-absent p used (waiting w id) new agrees.within),
  )

  member_self : (p : ℕ) (used : List ℕ) → member p (p ∷ used) ≡ true
  unfolding member
  member_self p used = ground arith

  put_record-Agrees :
      (p now : ℕ) (used : List ℕ) (q : List WalRecord) (w : Wal)
      → member p used ≡ false
      → Agrees given used id q w
      → Agrees given
          (p ∷ used)
          id
          (if str_eq (given p).session_id id
            then q ++ stamped (given p) (length q + 1) now ∷ []
            else q)
          (put_record w p now)
  put_record-Agrees p now used q w new agrees =
      let same = agrees.unused p new in
      let waits = waiting-put_record p now w in
      let counts = sequences-put_record p now w in
      let more = Within-more p used (waiting w id) agrees.within in
      elim (Bool-cases (str_eq (given p).session_id id)) [
        | inl own ↦ record {
          held = ground (
            arith,
            waits,
            same,
            own,
            eq_iff (w.heap p).session_id id,
            put_own-held p now used q w new agrees,
          );
          within =
              subst (Within (p ∷ used)) (sym (ground (arith, waits, same, own)))
                (Within-append p (p ∷ used) (waiting w id) (member_self p used) more);
          unused = unused-put_record p now used q w agrees;
          counted = ground (
            arith,
            waits,
            counts,
            same,
            own,
            agrees.counted,
            length-append (waiting w id) (p ∷ []),
          );
        }
        | inr other ↦ record {
          held = ground (arith, waits, same, other, put_other-held p now used q w new agrees);
          within = subst (Within (p ∷ used)) (sym (ground (arith, waits, same, other))) more;
          unused = unused-put_record p now used q w agrees;
          counted = ground (arith, waits, counts, same, other, agrees.counted);
        }
      ]

  Agrees-eq :
      (used : List ℕ) {q r : List WalRecord} {v w : Wal}
      → q ≡ r
      → v ≡ w
      → Agrees given used id q v
      → Agrees given used id r w
  Agrees-eq used {q} {r} {v} {w} e f agrees =
      subst (λ x. Agrees given used id r x) f (subst (λ x. Agrees given used id x v) e agrees)

  used_more :
      (p : ℕ) (used : List ℕ) (q : List WalRecord) (w : Wal)
      → Agrees given used id q w
      → Agrees given (p ∷ used) id q w
  unfolding member
  used_more p used q w agrees = record {
    held = agrees.held;
    within = Within-more p used (waiting w id) agrees.within;
    unused = λ o free. ground (arith, agrees.unused o);
    counted = agrees.counted;
  }

  append_wal-Agrees :
      (p now : ℕ) (used : List ℕ) (q : List WalRecord) (w : Wal)
      → member p used ≡ false
      → Agrees given used id q w
      → Agrees given
          (p ∷ used)
          id
          (queue_step given id q (append (some p) now))
          (append_wal (some p) now w).1
  unfolding append_wal
  append_wal-Agrees p now used q w new agrees =
      let same = agrees.unused p new in
      elim (Bool-cases (str_eq (given p).session_id "")) [
        | inl blank ↦
            Agrees-eq (p ∷ used) (ground arith) (ground arith) (used_more p used q w agrees)
        | inr named ↦
            Agrees-eq (p ∷ used) (ground arith) (ground arith)
              (put_record-Agrees p now used q w new agrees)
      ]

  replay_wal-Agrees :
      (j : String) (used : List ℕ) (q : List WalRecord) (w : Wal)
      → Agrees given used id q w
      → Agrees given used id (queue_step given id q (replay j)) (replay_wal j w).1
  unfolding replay_wal waiting
  replay_wal-Agrees j used q w agrees = elim (Bool-cases (str_eq j "")) [
    | inl blank ↦ Agrees-eq used (ground arith) (ground arith) agrees
    | inr named ↦ record {
      held = ground (arith, lookup-erase j id w.records, agrees.held, eq_iff j id);
      within = elim (Bool-cases (str_eq j id)) [
        | inl own ↦
            let emptied : waiting (replay_wal j w).1 id ≡ [] =
              ground (arith, lookup-erase j id w.records, own) in
            subst (Within used) (sym emptied) tt
        | inr other ↦
            subst (Within used) (sym (ground (arith, lookup-erase j id w.records, other)))
              agrees.within
      ];
      unused = λ o free. ground (arith, agrees.unused o);
      counted = ground (
        arith,
        lookup-erase j id w.records,
        lookup-erase j id w.sequences,
        agrees.counted,
        eq_iff j id,
      );
    }
  ]

  pub log_run-Agrees :
      (used : List ℕ) (q : List WalRecord) (w : Wal) (cs : List LogCall)
      → IsFresh used cs
      → Agrees given used id q w
      → map (log_run w cs).heap (waiting (log_run w cs) id) ≡ queue_run given id q cs
  unfolding log_run queue_run append_wal
  log_run-Agrees used q w [] fresh agrees = agrees.held
  log_run-Agrees used q w (append none now ∷ cs) fresh agrees =
      log_run-Agrees used q w cs fresh agrees
  log_run-Agrees used q w (append (some p) now ∷ cs) (new, fresh) agrees =
      log_run-Agrees (p ∷ used) (queue_step given id q (append (some p) now))
        (append_wal (some p) now w).1 cs fresh (append_wal-Agrees p now used q w new agrees)
  log_run-Agrees used q w (replay j ∷ cs) fresh agrees =
      log_run-Agrees used (queue_step given id q (replay j)) (replay_wal j w).1 cs fresh
        (replay_wal-Agrees j used q w agrees)
