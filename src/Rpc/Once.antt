-- ===== src/Rpc/Once.antt =====
-- grpc/server.go: each session's key generation, and its signing, starts at most once, and what the
-- signings that start have in common.
use go_mpc_wallet.Base.{◌+◌, ◌≤◌, ◌≡◌, refl, String, false, List, [], ◌∷◌, ◌++◌, arith, eq_iff}
use go_mpc_wallet.Storage.World.{Redis, World}
use go_mpc_wallet.Session.Manager.{contains}
use go_mpc_wallet.Signing.Types.{StartSign}
use go_mpc_wallet.Rpc.Types.{Engines, Config, Task, sign_task, Server, session_or_key}
use go_mpc_wallet.Rpc.Tasks.{run_task}
use go_mpc_wallet.Rpc.Steps.{
  Step, call_dkg, call_sign, call_share, goroutine, others, Run, start, later, new_server,
}
use go_mpc_wallet.Rpc.Effect.{
  occurrences, dkg_sessions, sign_sessions, absent, occurrences-append, dkg_sessions-append,
  sign_sessions-append, Effect, quiet, starts_dkg, starts_sign, start_dkg-Effect, start_sign-Effect,
  submit-Effect, run_task-frame,
}

-- Every goroutine that ran or waits has spent the Once of its session, and no Once is spent twice.
pub record IsOnce {R : Redis} {E : Engines R} (ran : List Task) (s : Server E) : Type 0 where
  pub dkg_spent :
      (id : String)
      → occurrences id (dkg_sessions ran) + occurrences id (dkg_sessions s.tasks)
        ≡ occurrences id s.dkg_once
  pub sign_spent :
      (id : String)
      → occurrences id (sign_sessions ran) + occurrences id (sign_sessions s.tasks)
        ≡ occurrences id s.sign_once
  pub dkg_single : (id : String) → occurrences id s.dkg_once ≤ 1
  pub sign_single : (id : String) → occurrences id s.sign_once ≤ 1

spent_once :
    (id other : String) (xs : List String)
    → contains id xs ≡ false
    → occurrences other xs ≤ 1
    → occurrences other (id ∷ xs) ≤ 1
unfolding occurrences
spent_once id other xs fresh single = ground (arith, absent id xs fresh, eq_iff id other)

dkg_count-append :
    (id : String) (xs ys : List Task)
    → occurrences id (dkg_sessions (xs ++ ys))
      ≡ occurrences id (dkg_sessions xs) + occurrences id (dkg_sessions ys)
dkg_count-append id xs ys =
    ground
      (arith, dkg_sessions-append xs ys, occurrences-append id (dkg_sessions xs) (dkg_sessions ys))

sign_count-append :
    (id : String) (xs ys : List Task)
    → occurrences id (sign_sessions (xs ++ ys))
      ≡ occurrences id (sign_sessions xs) + occurrences id (sign_sessions ys)
sign_count-append id xs ys =
    ground (
      arith,
      sign_sessions-append xs ys,
      occurrences-append id (sign_sessions xs) (sign_sessions ys),
    )

-- A goroutine that runs is counted among those that ran, and no more among those that wait.
dkg_moves :
    (id : String) (g : Task) (ran before after : List Task)
    → occurrences id (dkg_sessions (g ∷ ran)) + occurrences id (dkg_sessions (before ++ after))
      ≡ occurrences id (dkg_sessions ran) + occurrences id (dkg_sessions (before ++ (g ∷ after)))
dkg_moves id g ran before after = omega (
  arith,
  dkg_count-append id (g ∷ []) ran,
  dkg_count-append id (g ∷ []) after,
  dkg_count-append id before after,
  dkg_count-append id before (g ∷ after),
)

sign_moves :
    (id : String) (g : Task) (ran before after : List Task)
    → occurrences id (sign_sessions (g ∷ ran)) + occurrences id (sign_sessions (before ++ after))
      ≡ occurrences id (sign_sessions ran) + occurrences id (sign_sessions (before ++ (g ∷ after)))
sign_moves id g ran before after = omega (
  arith,
  sign_count-append id (g ∷ []) ran,
  sign_count-append id (g ∷ []) after,
  sign_count-append id before after,
  sign_count-append id before (g ∷ after),
)

dkg_skips : (req : StartSign) (ts : List Task) → dkg_sessions (sign_task req ∷ ts) ≡ dkg_sessions ts
unfolding dkg_sessions
dkg_skips req ts = refl

module _ {R : Redis} {E : Engines R} where
  Effect-IsOnce : {ran : List Task} {s t : Server E} → Effect s t → IsOnce ran s → IsOnce ran t
  unfolding occurrences sign_sessions
  Effect-IsOnce (quiet a b d) inv = record {
    dkg_spent = λ id. ground (arith, inv.dkg_spent id);
    sign_spent = λ id. ground (arith, inv.sign_spent id);
    dkg_single = λ id. ground (arith, inv.dkg_single id);
    sign_single = λ id. ground (arith, inv.sign_single id);
  }
  Effect-IsOnce {s = s} (starts_dkg id g keys signs fresh a b d) inv = record {
    dkg_spent = λ other. ground (arith, inv.dkg_spent other, keys s.tasks);
    sign_spent = λ other. ground (arith, inv.sign_spent other, signs s.tasks);
    dkg_single =
        λ other. ground (arith, spent_once id other s.dkg_once fresh (inv.dkg_single other));
    sign_single = λ other. ground (arith, inv.sign_single other);
  }
  Effect-IsOnce {s = s} (starts_sign req few many fresh a b d) inv =
      let id = session_or_key req.session_id req.key_id in
      record {
        dkg_spent = λ other. ground (arith, inv.dkg_spent other, dkg_skips req s.tasks);
        sign_spent = λ other. ground (arith, inv.sign_spent other);
        dkg_single = λ other. ground (arith, inv.dkg_single other);
        sign_single =
            λ other. ground (arith, spent_once id other s.sign_once fresh (inv.sign_single other));
      }

  goroutine-IsOnce :
      (c : Config E) {ran : List Task} {s : Server E} (before after : List Task) (g : Task)
      → s.tasks ≡ before ++ (g ∷ after)
      → IsOnce ran s
      → IsOnce (g ∷ ran) (run_task c g (record s { tasks = before ++ after }))
  goroutine-IsOnce c {ran} {s} before after g waits inv =
      let frame = run_task-frame c g (record s { tasks = before ++ after }) in
      record {
        dkg_spent = λ id. ground (arith, frame, inv.dkg_spent id, dkg_moves id g ran before after);
        sign_spent =
            λ id. ground (arith, frame, inv.sign_spent id, sign_moves id g ran before after);
        dkg_single = λ id. ground (arith, frame, inv.dkg_single id);
        sign_single = λ id. ground (arith, frame, inv.sign_single id);
      }

  Step-IsOnce :
      (c : Config E) {ran more : List Task} {s t : Server E}
      → Step c s more t
      → IsOnce ran s
      → IsOnce (more ++ ran) t
  Step-IsOnce c {s = s} (call_dkg req) inv = Effect-IsOnce (start_dkg-Effect c req s) inv
  Step-IsOnce c {s = s} (call_sign req) inv = Effect-IsOnce (start_sign-Effect c req s) inv
  Step-IsOnce c {s = s} (call_share req) inv = Effect-IsOnce (submit-Effect c req s) inv
  Step-IsOnce c (goroutine before after g waits) inv = goroutine-IsOnce c before after g waits inv
  Step-IsOnce c (others w l) inv = Effect-IsOnce (quiet refl refl refl) inv

  Run-IsOnce :
      (c : Config E) (w : World R) (l : E.Local) {ran : List Task} {s : Server E}
      → Run c (new_server w l) ran s
      → IsOnce ran s
  unfolding occurrences dkg_sessions sign_sessions
  Run-IsOnce c w l start = record {
    dkg_spent = λ id. omega arith;
    sign_spent = λ id. omega arith;
    dkg_single = λ id. omega arith;
    sign_single = λ id. omega arith;
  }
  Run-IsOnce c w l (later r st) = Step-IsOnce c st (Run-IsOnce c w l r)

  -- In every state that a new server gets to, by any calls, messages, goroutines and changes of
  -- the database and of the engines in any order: of the goroutines that ran or wait to run, at
  -- most one is the key generation of a session, and at most one is the signing of a session.
  pub Run-once :
      (c : Config E) (w : World R) (l : E.Local) {ran : List Task} {s : Server E}
      → Run c (new_server w l) ran s
      → (id : String)
      → (occurrences id (dkg_sessions (ran ++ s.tasks)) ≤ 1)
        × (occurrences id (sign_sessions (ran ++ s.tasks)) ≤ 1)
  Run-once c w l {ran} {s} r id =
      let inv = Run-IsOnce c w l r in
      (
        omega (arith, inv.dkg_spent id, inv.dkg_single id, dkg_count-append id ran s.tasks),
        omega (arith, inv.sign_spent id, inv.sign_single id, sign_count-append id ran s.tasks),
      )
