-- ===== src/Session/Queue.antt =====
-- store.go, AppendWAL and ReplayWAL: calls of the log, and the queue of one session that they amount to.
use go_mpc_wallet.Base.{
  inl, inr, map, Bool, true, false, ◌==◌, ◌||◌, Bool-cases, ℕ, ◌+◌, ◌≡◌, refl, String, Option, none,
  some, List, [], ◌∷◌, ◌++◌, if◌then◌else◌, str_eq, length, arith, ap,
}
use go_mpc_wallet.Session.Types.{WalRecord}
use go_mpc_wallet.Session.Log.{Wal, stamped, append_wal, replay_wal, written}

-- A call of the log, at a time, of a pointer to a record.
pub data LogCall : Type 0 where
  append : Option ℕ → ℕ → LogCall
  replay : String → LogCall

abbrev pub log_step : Wal → LogCall → Wal
log_step w (append p now) = (append_wal p now w).1
log_step w (replay id) = (replay_wal id w).1

unfoldable pub log_run : Wal → List LogCall → Wal
log_run w [] = w
log_run w (c ∷ cs) = log_run (log_step w c) cs

unfoldable pub member : ℕ → List ℕ → Bool
member p [] = false
member p (q ∷ qs) = (p == q) || member p qs

-- No pointer is appended twice, or is among those used before.
abbrev pub IsFresh : List ℕ → List LogCall → Type 0
IsFresh used [] = Unit
IsFresh used (append none now ∷ cs) = IsFresh used cs
IsFresh used (append (some p) now ∷ cs) = (member p used ≡ false) × IsFresh (p ∷ used) cs
IsFresh used (replay id ∷ cs) = IsFresh used cs

-- What one call does to the queue of a session, of records as they are handed over: a record of the
-- session is put at the end, with the next number; a replay of the session empties it; all else leaves
-- it. A call without a session does nothing.
abbrev pub queue_step : (ℕ → WalRecord) → String → List WalRecord → LogCall → List WalRecord
queue_step given id q (append none now) = q
queue_step given id q (append (some p) now) =
    if str_eq (given p).session_id ""
    then q
    else (if str_eq (given p).session_id id
        then q ++ stamped (given p) (length q + 1) now ∷ []
        else q)
queue_step given id q (replay j) = if str_eq j "" then q else (if str_eq j id then [] else q)

unfoldable pub queue_run : (ℕ → WalRecord) → String → List WalRecord → List LogCall → List WalRecord
queue_run given id q [] = q
queue_run given id q (c ∷ cs) = queue_run given id (queue_step given id q c) cs

-- Each of the pointers is used.
abbrev pub Within : List ℕ → List ℕ → Type 0
Within used [] = Unit
Within used (p ∷ ps) = (member p used ≡ true) × Within used ps

pub Within-more : (p : ℕ) (used ps : List ℕ) → Within used ps → Within (p ∷ used) ps
unfolding member
Within-more p used [] h = tt
Within-more p used (q ∷ ps) h = (ground (arith, h.0), Within-more p used ps h.1)

pub Within-append :
    (p : ℕ) (used ps : List ℕ) → member p used ≡ true → Within used ps → Within used (ps ++ p ∷ [])
Within-append p used [] there h = (there, tt)
Within-append p used (q ∷ ps) there h = (h.0, Within-append p used ps there h.1)

pub Within-absent :
    (p : ℕ) (used ps : List ℕ) → member p used ≡ false → Within used ps → member p ps ≡ false
unfolding member
Within-absent p used [] new h = refl
Within-absent p used (q ∷ ps) new h = elim (Bool-cases (p == q)) [
  | inl same ↦ ground (arith, h.0)
  | inr other ↦ ground (arith, Within-absent p used ps new h.1)
]

-- A write to another record.
pub map-written :
    (p : ℕ) (r : WalRecord) (heap : ℕ → WalRecord) (ps : List ℕ)
    → member p ps ≡ false
    → map (written p r heap) ps ≡ map heap ps
unfolding member
map-written p r heap [] absent = refl
map-written p r heap (q ∷ ps) absent = ground (arith, map-written p r heap ps)

pub map-append_one :
    (f : ℕ → WalRecord) (ps : List ℕ) (p : ℕ) → map f (ps ++ p ∷ []) ≡ map f ps ++ f p ∷ []
map-append_one f [] p = refl
map-append_one f (q ∷ ps) p = ap (λ t. f q ∷ t) (map-append_one f ps p)
