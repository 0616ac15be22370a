-- ===== src/Rpc/Steps.antt =====
-- grpc/server.go: what happens at a server, in any order: calls of its handlers, its goroutines, and
-- what the other processes do to the database and to the state of the engines.
use go_mpc_wallet.Base.{List, [], ◌∷◌, ◌++◌, ◌≡◌}
use go_mpc_wallet.Storage.World.{Redis, World}
use go_mpc_wallet.Signing.Types.{StartSign}
use go_mpc_wallet.Rpc.Types.{StartDkg, ShareRequest, Engines, Config, Task, Server}
use go_mpc_wallet.Rpc.Tasks.{run_task}
use go_mpc_wallet.Rpc.Server.{start_dkg, start_sign, submit_signature_share}

-- NewGRPCServerWithRegistry
abbrev pub new_server : {R : Redis} {E : Engines R} → World R → E.Local → Server E
new_server w l = record { world = w; inner = l; dkg_once = []; sign_once = []; tasks = [] }

-- One step, with the goroutines that it lets run.
pub data Step {R : Redis} {E : Engines R} (c : Config E) (s : Server E)
    : List Task → Server E → Type 1 where
  call_dkg : (req : StartDkg) → Step c s [] (start_dkg c req s).1
  call_sign : (req : StartSign) → Step c s [] (start_sign c req s).1
  call_share : (req : ShareRequest) → Step c s [] (submit_signature_share c req s).1
  goroutine :
      (before after : List Task) (t : Task)
      → s.tasks ≡ before ++ (t ∷ after)
      → Step c s (t ∷ []) (run_task c t (record s { tasks = before ++ after }))
  others : (w : World R) (l : E.Local) → Step c s [] (record s { world = w; inner = l })

-- The states that a server gets to from `s`, with the goroutines that ran on the way.
pub data Run {R : Redis} {E : Engines R} (c : Config E) (s : Server E)
    : List Task → Server E → Type 1 where
  start : Run c s [] s
  later :
      {ran more : List Task} {t u : Server E}
      → Run c s ran t
      → Step c t more u
      → Run c s (more ++ ran) u
