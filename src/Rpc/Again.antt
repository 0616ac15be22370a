-- ===== src/Rpc/Again.antt =====
-- grpc/server.go, StartDKG: a second start of a session.
use go_mpc_wallet.Base.{◌≡◌, String, true, List, ◌++◌, arith, str_eq_self}
use go_mpc_wallet.Storage.World.{Redis}
use go_mpc_wallet.Session.Manager.{contains}
use go_mpc_wallet.Rpc.Types.{StartDkg, Engines, Config, Task, Server, session_or_key}
use go_mpc_wallet.Rpc.Server.{start_dkg, answer}
use go_mpc_wallet.Rpc.Steps.{
  Step, call_dkg, call_sign, call_share, goroutine, others, Run, start, later,
}
use go_mpc_wallet.Rpc.Effect.{
  Effect, quiet, starts_dkg, starts_sign, start_dkg-Effect, start_sign-Effect, submit-Effect,
  run_task-frame,
}

module _ {R : Redis} {E : Engines R} where
  Effect-spent :
      (id : String) {s t : Server E}
      → Effect s t
      → contains id s.dkg_once ≡ true
      → contains id t.dkg_once ≡ true
  unfolding contains
  Effect-spent id (quiet a b d) spent = ground arith
  Effect-spent id (starts_dkg other g ks ss fresh a b d) spent = ground arith
  Effect-spent id (starts_sign req few many fresh a b d) spent = ground arith

  Step-spent :
      (c : Config E) (id : String) {more : List Task} {s t : Server E}
      → Step c s more t
      → contains id s.dkg_once ≡ true
      → contains id t.dkg_once ≡ true
  Step-spent c id {s = s} (call_dkg req) spent = Effect-spent id (start_dkg-Effect c req s) spent
  Step-spent c id {s = s} (call_sign req) spent = Effect-spent id (start_sign-Effect c req s) spent
  Step-spent c id {s = s} (call_share req) spent = Effect-spent id (submit-Effect c req s) spent
  Step-spent c id {s = s} (goroutine before after g waits) spent =
      ground (arith, run_task-frame c g (record s { tasks = before ++ after }))
  Step-spent c id (others w l) spent = spent

  Run-spent :
      (c : Config E) (id : String) {s : Server E} {ran : List Task} {t : Server E}
      → Run c s ran t
      → contains id s.dkg_once ≡ true
      → contains id t.dkg_once ≡ true
  Run-spent c id start spent = spent
  Run-spent c id (later r st) spent = Step-spent c id st (Run-spent c id r spent)

  start_dkg-spent :
      (c : Config E) (req : StartDkg) (s : Server E)
      → contains (session_or_key req.session_id req.key_id) (start_dkg c req s).1.dkg_once ≡ true
  unfolding start_dkg contains
  start_dkg-spent c req s = ground (arith, str_eq_self (session_or_key req.session_id req.key_id))

  already :
      (c : Config E) (req : StartDkg) {t : Server E}
      → contains (session_or_key req.session_id req.key_id) t.dkg_once ≡ true
      → start_dkg c req t ≡ (answer true "DKG already started", t)
  unfolding start_dkg
  already c req spent = ground arith

  -- Once StartDKG has been called for a session, whatever happens after that, its key generation
  -- failing included, every further StartDKG for that session answers that the key generation is
  -- started, and changes nothing: the server never runs it again.
  pub start_dkg-again :
      (c : Config E) (req again : StartDkg) (s : Server E) {ran : List Task} {t : Server E}
      → session_or_key again.session_id again.key_id ≡ session_or_key req.session_id req.key_id
      → Run c (start_dkg c req s).1 ran t
      → start_dkg c again t ≡ (answer true "DKG already started", t)
  start_dkg-again c req again s same r = already c again (
      ground
        (arith, Run-spent c (session_or_key req.session_id req.key_id) r (start_dkg-spent c req s)))
