-- ===== src/Session/Log.antt =====
-- internal/mpc/session/store.go: the log of protocol events that are not committed, kept in memory
-- under a lock, so that its operations do not interleave. The log keeps pointers, and AppendWAL writes
-- to the record that it is given: a pointer is a number, and the heap has the callers' records.
use go_mpc_wallet.Base.{
  ℕ, ◌+◌, String, Option, none, some, List, [], ◌∷◌, ◌++◌, Dict, lookup, insert, erase, ◌==◌,
  if◌then◌else◌, str_eq,
}
use go_mpc_wallet.Storage.World.{Outcome, ok, err, message}
use go_mpc_wallet.Session.Types.{WalRecord}

pub record Wal : Type 0 where
  pub records : Dict (List ℕ)
  pub sequences : Dict ℕ
  pub heap : ℕ → WalRecord

abbrev pub empty_wal : (ℕ → WalRecord) → Wal
empty_wal heap = record { records = []; sequences = []; heap = heap }

-- `*p = r`
abbrev pub written : ℕ → WalRecord → (ℕ → WalRecord) → ℕ → WalRecord
written p r heap q = if p == q then r else heap q

-- A Go map gives the zero value for a key that it lacks.
abbrev pub or_zero : Option ℕ → ℕ
or_zero none = 0
or_zero (some n) = n

abbrev pub or_nil {ℓ} : {A : Type ℓ} → Option (List A) → List A
or_nil none = []
or_nil (some xs) = xs

unfoldable pub next_sequence : Wal → String → ℕ
next_sequence w id = or_zero (lookup id w.sequences) + 1

abbrev pub stamped : WalRecord → ℕ → ℕ → WalRecord
stamped r sequence now = record r {
  sequence = sequence;
  created_at = (if r.created_at == 0 then now else r.created_at);
}

-- The records of a session that wait for a replay.
unfoldable pub waiting : Wal → String → List ℕ
waiting w id = or_nil (lookup id w.records)

unfoldable pub put_record : Wal → ℕ → ℕ → Wal
unfolding next_sequence waiting
put_record w p now =
    let r = w.heap p in
    let n = next_sequence w r.session_id in
    record {
      records = insert r.session_id (waiting w r.session_id ++ p ∷ []) w.records;
      sequences = insert r.session_id n w.sequences;
      heap = written p (stamped r n now) w.heap;
    }

-- `none` is a nil pointer.
unfoldable pub append_wal : Option ℕ → ℕ → Wal → Outcome (Unit {0}) × Wal
append_wal none now w = (err (message "wal record is nil"), w)
append_wal (some p) now w =
    if str_eq (w.heap p).session_id ""
    then (err (message "wal record missing session id"), w)
    else (ok tt, put_record w p now)

unfoldable pub replay_wal : String → Wal → Outcome (List ℕ) × Wal
unfolding waiting
replay_wal id w = if str_eq id "" then (err (message "session id is empty"), w) else (
  ok (waiting w id),
  record w { records = erase id w.records; sequences = erase id w.sequences },
)
