-- ===== src/Session/Replay.antt =====
-- store.go, AppendWAL and ReplayWAL: the log, and the queue of one session.
use go_mpc_wallet.Base.{
  map, ℕ, suc, ◌+◌, ◌≡◌, ◌≢◌, refl, String, none, some, List, [], ◌∷◌, ◌++◌, lookup, eq_iff, length,
  arith,
}
use go_mpc_wallet.Storage.World.{ok}
use go_mpc_wallet.Session.Types.{WalRecord}
use go_mpc_wallet.Session.Log.{empty_wal, stamped, waiting, replay_wal}
use go_mpc_wallet.Session.Queue.{LogCall, append, replay, log_run, IsFresh, queue_step, queue_run}
use go_mpc_wallet.Session.Pointers.{Agrees, log_run-Agrees}

-- The numbers of a queue count up from `k`.
abbrev pub IsNumbered : ℕ → List WalRecord → Type 0
IsNumbered k [] = Unit
IsNumbered k (r ∷ rs) = (r.sequence ≡ k) × IsNumbered (suc k) rs

IsNumbered-append :
    (k : ℕ) (q : List WalRecord) (r : WalRecord)
    → IsNumbered k q
    → r.sequence ≡ k + length q
    → IsNumbered k (q ++ r ∷ [])
IsNumbered-append k [] r h e = (omega arith, tt)
IsNumbered-append k (x ∷ q) r h e = (h.0, IsNumbered-append (suc k) q r h.1 (omega arith))

queue_step-IsNumbered :
    (given : ℕ → WalRecord) (id : String) (q : List WalRecord) (c : LogCall)
    → IsNumbered 1 q
    → IsNumbered 1 (queue_step given id q c)
queue_step-IsNumbered given id q (append none now) h = h
queue_step-IsNumbered given id q (append (some p) now) h =
    ground (arith, IsNumbered-append 1 q (stamped (given p) (length q + 1) now) h (omega arith))
queue_step-IsNumbered given id q (replay j) h = ground arith

queue_run-IsNumbered :
    (given : ℕ → WalRecord) (id : String) (q : List WalRecord) (cs : List LogCall)
    → IsNumbered 1 q
    → IsNumbered 1 (queue_run given id q cs)
unfolding queue_run
queue_run-IsNumbered given id q [] h = h
queue_run-IsNumbered given id q (c ∷ cs) h =
    queue_run-IsNumbered given id (queue_step given id q c) cs
      (queue_step-IsNumbered given id q c h)

empty-Agrees : (given : ℕ → WalRecord) (id : String) → Agrees given [] id [] (empty_wal given)
unfolding lookup waiting
empty-Agrees given id = record { held = refl; within = tt; unused = λ p free. refl; counted = refl }

-- After any calls of AppendWAL and ReplayWAL on an empty log, where no record is appended twice or
-- changed by its caller afterwards: the next replay of a session with an identifier returns
-- pointers to the records that a queue of that session alone holds, its records since its last
-- replay in the order of their appending, numbered from 1. Calls for other sessions make no
-- difference.
pub replay_wal-queue :
    (given : ℕ → WalRecord) (id : String) (cs : List LogCall)
    → id ≢ ""
    → IsFresh [] cs
    → let w = log_run (empty_wal given) cs in
      (ps : List ℕ) × ((replay_wal id w).0 ≡ ok ps)
      × (map (replay_wal id w).1.heap ps ≡ queue_run given id [] cs)
      × IsNumbered 1 (queue_run given id [] cs)
unfolding replay_wal
replay_wal-queue given id cs named fresh =
    let w = log_run (empty_wal given) cs in
    let same = log_run-Agrees given id [] [] (empty_wal given) cs fresh (empty-Agrees given id) in
    (
      waiting w id,
      ground (arith, eq_iff id ""),
      ground (arith, eq_iff id "", same),
      queue_run-IsNumbered given id [] cs tt,
    )
