-- ===== src/Tests/Logs.antt =====
-- Examples of the log of a session, and of the progress of its rounds.
use go_mpc_wallet.Base.{
  ℕ, ◌==◌, if◌then◌else◌, map, ◌*◌, ◌≡◌, ◌≢◌, refl, String, none, some, List, [], ◌∷◌, lookup,
  insert, arith, eq_iff,
}
use go_mpc_wallet.Base.Int.{pos}
use go_mpc_wallet.Storage.Types.{SigningSession, minute}
use go_mpc_wallet.Storage.World.{World, ok, arrive, query, write}
use go_mpc_wallet.Storage.Postgres.{get_signing_session, update_signing_session, update_session_row}
use go_mpc_wallet.Storage.Cache
use go_mpc_wallet.Session.Types.{RoundProgress, WalRecord}
use go_mpc_wallet.Session.Manager.{find_stored}
use go_mpc_wallet.Session.Progress.{merge, store_progress, save_round_progress, load_round_progress}
use go_mpc_wallet.Session.Log.{empty_wal, replay_wal}
use go_mpc_wallet.Session.Queue.{LogCall, append, IsFresh, member, log_run, queue_run}
use go_mpc_wallet.Session.Replay.{IsNumbered, replay_wal-queue}
use go_mpc_wallet.Session.Rounds.{load-save_round_progress}
use go_mpc_wallet.Tests.Server.{server, key_of, session_of, wallet}

abbrev record_of : String → WalRecord
record_of id = record { sequence = 0; session_id = id; round = 1; payload = 7 ∷ []; created_at = 0 }

-- The records at 0, 1 and 2.
abbrev given : ℕ → WalRecord
given p = if p == 1 then record_of "t" else record_of "s"

abbrev calls : List LogCall
calls = append (some 0) 3 ∷ append (some 1) 4 ∷ append none 5 ∷ append (some 2) 6 ∷ []

calls-IsFresh : IsFresh [] calls
unfolding member
calls-IsFresh = (refl, (refl, (refl, tt)))

named : ◌≢◌ {A = String} "s" ""
named = λ e. ground (arith, (eq_iff "s" "").1 e)

replay_wal-queue_example :
    (ps : List ℕ) × ((replay_wal "s" (log_run (empty_wal given) calls)).0 ≡ ok ps)
    × (map (replay_wal "s" (log_run (empty_wal given) calls)).1.heap ps
        ≡ queue_run given "s" [] calls)
    × IsNumbered 1 (queue_run given "s" [] calls)
replay_wal-queue_example = replay_wal-queue given "s" calls named calls-IsFresh

abbrev row : SigningSession
row = session_of "s" "active"

abbrev start : World server
start = wallet (key_of "k" "Active") row 30

abbrev progress : RoundProgress
progress = record {
  session_id = "s";
  key_id = "k";
  protocol = "gg20";
  status = "";
  threshold = 1;
  total_nodes = 2;
  round = 2;
  total_rounds = 0;
  node_ids = "b" ∷ [];
  note = "";
  duration = pos 5000000;
  updated_at = 30;
  expires_at = 10 * minute;
}

saves : (save_round_progress (some progress) start).0 ≡ ok tt
unfolding save_round_progress store_progress merge find_stored Cache.get_session get_signing_session
    update_signing_session Cache.update_session Cache.save_session query write arrive
    update_session_row lookup insert
saves = refl

calm : (save_round_progress (some progress) start).1.calls ≡ []
unfolding save_round_progress store_progress merge find_stored Cache.get_session get_signing_session
    update_signing_session Cache.update_session Cache.save_session query write arrive
    update_session_row lookup insert
calm = refl

load-save_round_progress_example :
    (q : RoundProgress) × ((load_round_progress "s" (save_round_progress (some progress) start).1).0
      ≡ ok q)
    × (q.round ≡ 2)
    × (q.total_rounds ≡ 4)
    × (q.node_ids ≡ "b" ∷ [])
    × (q.status ≡ "active")
    × (q.note ≡ "")
unfolding lookup
load-save_round_progress_example =
    load-save_round_progress progress row start named refl refl saves calm
