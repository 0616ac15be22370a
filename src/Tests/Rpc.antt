-- ===== src/Tests/Rpc.antt =====
-- Examples for the server of a node.
use go_mpc_wallet.Base.{
  ℕ, zero, suc, ◌+◌, ◌≤◌, ◌≡◌, ◌↔◌, refl, String, true, false, some, none, List, [], ◌∷◌, lookup,
  insert,
}
use go_mpc_wallet.Base.Int.{pos}
use go_mpc_wallet.Storage.Types.{KeyMetadata, SigningSession}
use go_mpc_wallet.Storage.World.{World, ok, err, message, arrive, query, write, Outcome}
use go_mpc_wallet.Storage.Postgres.{
  get_signing_session, update_signing_session, update_session_row, get_key_metadata,
  update_key_metadata, update_key,
}
use go_mpc_wallet.Storage.Cache
use go_mpc_wallet.Session.Types.{convert_storage_session, failed, is_open}
use go_mpc_wallet.Session.Manager.{
  complete_keygen_session, finish_keygen, close_keygen, activate_key, find_stored, get_session,
  update_session, complete_session, contains,
}
use go_mpc_wallet.Session.Finish.{completed_row}
use go_mpc_wallet.Session.Keygen.{activated}
use go_mpc_wallet.Node.Consul.{trim_prefix}
use go_mpc_wallet.Signing.Types.{StartSign, Signature}
use go_mpc_wallet.Rpc.Types.{
  StartDkg, ShareRequest, Engines, Config, keygen_task, sign_task, Server,
}
use go_mpc_wallet.Rpc.Tasks.{run_task}
use go_mpc_wallet.Rpc.Server.{
  start_dkg, start_sign, submit_signature_share, handle_protocol_message, keygen_message, is_keygen,
  answer,
}
use go_mpc_wallet.Rpc.Steps.{Run, start, later, call_dkg, goroutine, new_server}
use go_mpc_wallet.Rpc.Effect.{occurrences, dkg_sessions, sign_sessions}
use go_mpc_wallet.Rpc.Once.{Run-once}
use go_mpc_wallet.Rpc.Again.{start_dkg-again}
use go_mpc_wallet.Rpc.Fits.{IsFitting, start_sign-started}
use go_mpc_wallet.Rpc.Endings.{
  sign_task-failure, sign_task-success, submit_signature_share-activates,
}
use go_mpc_wallet.Tests.Server.{server, key_of, session_of, wallet, fresh-IsCoherent}

abbrev signature : Signature
signature = record { bytes = 1 ∷ []; hex = "01"; r = []; s = [] }

-- The engine 0 fails, and the engine 1 signs; the state counts the calls.
abbrev signs : ℕ → ℕ → World server → Outcome Signature × ℕ × World server
signs zero n w = (err (message "offline"), n + 1, w)
signs (suc _) n w = (ok signature, n + 1, w)

abbrev engines : Engines server
engines = record {
  Local = ℕ;
  Ref = ℕ;
  engine_keygen = λ e req n w. (err (message "offline"), n + 1, w);
  engine_sign = λ e id req n w. signs e n w;
  process_keygen = λ e id from share b n. (ok tt, n + 1);
  process_signing = λ e id from share b n. (ok tt, n + 1);
  keep_share = λ key node share n. (ok tt, n);
}

abbrev config : ℕ → Config engines
config e = record { node_id = "a"; default_engine = e; registry = none; has_storage = true }

abbrev fresh : World server → Server engines
fresh w = new_server w 0

abbrev dkg_for : String → StartDkg
dkg_for id = record {
  session_id = id;
  key_id = "k";
  algorithm = "ECDSA";
  curve = "secp256k1";
  threshold = 2;
  total_nodes = 3;
  node_ids = [];
}

abbrev sign_for : List String → StartSign
sign_for nodes = record {
  session_id = "s";
  key_id = "k";
  message = 7 ∷ [];
  message_hex = "";
  protocol = "";
  threshold = 2;
  total_nodes = 3;
  node_ids = nodes;
}

abbrev keygen : SigningSession
keygen = session_of "k" "pending"

abbrev key : KeyMetadata
key = key_of "k" "Pending"

abbrev before : World server
before = wallet key keygen 30

-- A key generation that fails, between two calls that start it.
tried :
    Run
      (config 0)
      (start_dkg (config 0) (dkg_for "") (fresh before)).1
      (keygen_task (dkg_for "") ∷ [])
      (run_task
        (config 0)
        (keygen_task (dkg_for ""))
        (record (start_dkg (config 0) (dkg_for "") (fresh before)).1 { tasks = [] }))
unfolding start_dkg contains
tried = later start (goroutine [] [] (keygen_task (dkg_for "")) refl)

start_dkg-again_example :
    start_dkg (config 0) (dkg_for "k") (
      run_task
        (config 0)
        (keygen_task (dkg_for ""))
        (record (start_dkg (config 0) (dkg_for "") (fresh before)).1 { tasks = [] }))
    ≡ (
      answer true "DKG already started",
      run_task
          (config 0)
          (keygen_task (dkg_for ""))
          (record (start_dkg (config 0) (dkg_for "") (fresh before)).1 { tasks = [] }),
    )
start_dkg-again_example =
    start_dkg-again (config 0) (dkg_for "") (dkg_for "k") (fresh before) refl tried

begun : Run (config 0) (fresh before) [] (start_dkg (config 0) (dkg_for "") (fresh before)).1
begun = later start (call_dkg (dkg_for ""))

Run-once_example :
    (occurrences "k" (dkg_sessions (start_dkg (config 0) (dkg_for "") (fresh before)).1.tasks) ≤ 1)
    × (occurrences "k" (sign_sessions (start_dkg (config 0) (dkg_for "") (fresh before)).1.tasks)
        ≤ 1)
Run-once_example = Run-once (config 0) before 0 begun "k"

start_sign-started_example :
    (((start_sign (config 0) (sign_for ("a" ∷ [])) (fresh before)).0.started ≡ true)
      ↔ IsFitting (sign_for ("a" ∷ [])))
    × ((start_sign (config 0) (sign_for ("a" ∷ [])) (fresh before)).0.started ≡ false
        → (start_sign (config 0) (sign_for ("a" ∷ [])) (fresh before)).1 ≡ fresh before)
start_sign-started_example = start_sign-started (config 0) (sign_for ("a" ∷ [])) (fresh before)

-- The session "s" of a signing, which another node has completed.
abbrev done : SigningSession
done = session_of "s" "completed"

abbrev signing : World server
signing = wallet key done 30

abbrev request : StartSign
request = sign_for ("a" ∷ "b" ∷ [])

reads : (get_session "s" signing).0 ≡ ok (convert_storage_session done)
unfolding get_session find_stored Cache.get_session get_signing_session query arrive lookup
reads = refl

fails :
    (update_session
      (record (convert_storage_session done) { status = failed })
      (get_session "s" signing).1).0
    ≡ ok tt
unfolding get_session find_stored Cache.get_session get_signing_session update_session
    update_signing_session Cache.update_session Cache.save_session query write arrive
    update_session_row lookup insert
fails = refl

sign_task-failure_example :
    lookup "s" (run_task (config 0) (sign_task request) (fresh signing)).world.sessions
    ≡ some (record done { status = failed })
unfolding lookup
sign_task-failure_example =
    sign_task-failure (config 0) request (7 ∷ []) (fresh signing) 1 signing done refl
      (fresh-IsCoherent key done 30) refl (message "offline") (convert_storage_session done) refl
      reads fails

completes : (complete_session "s" "01" signing).0 ≡ ok tt
unfolding complete_session get_session find_stored Cache.get_session get_signing_session
    update_session update_signing_session Cache.update_session Cache.save_session query write arrive
    update_session_row lookup insert
completes = refl

sign_task-success_example :
    lookup "s" (run_task (config 1) (sign_task request) (fresh signing)).world.sessions
    ≡ some (completed_row done "01" (get_session "s" signing).1.now)
unfolding lookup
sign_task-success_example =
    sign_task-success (config 1) request (7 ∷ []) (fresh signing) 1 signing done refl
      (fresh-IsCoherent key done 30) refl signature refl refl completes

abbrev announcement : ShareRequest
announcement = record {
  session_id = "k";
  node_id = "mallory";
  share_data = "DKG_COMPLETE:0bad";
  round = pos 0;
}

accepted : (submit_signature_share (config 0) announcement (fresh before)).0.accepted ≡ true
unfolding submit_signature_share handle_protocol_message keygen_message is_keygen trim_prefix
    complete_keygen_session finish_keygen close_keygen activate_key get_key_metadata
    update_key_metadata update_key get_session find_stored Cache.get_session get_signing_session
    update_session update_signing_session Cache.update_session Cache.save_session query write arrive
    update_session_row lookup insert
accepted = refl

submit_signature_share-activates_example :
    (is_open keygen.status ≡ true)
    × (lookup "k" (submit_signature_share (config 0) announcement (fresh before)).1.world.keys
        ≡ some (activated key "0bad" (get_session "k" (get_session "k" before).1).1.now))
unfolding lookup trim_prefix
submit_signature_share-activates_example =
    submit_signature_share-activates (config 0) announcement (fresh before) "0bad" keygen key refl
      (fresh-IsCoherent key keygen 30) refl refl refl refl accepted
