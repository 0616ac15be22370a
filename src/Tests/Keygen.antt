-- ===== src/Tests/Keygen.antt =====
-- Examples of key generation, and of the creation of sessions.
use go_mpc_wallet.Base.{
  ◌≤◌, ◌+◌, ◌*◌, ◌≡◌, ◌≢◌, ◌<◌, refl, true, some, [], ◌∷◌, lookup, insert, arith,
}
use go_mpc_wallet.Storage.Types.{KeyMetadata, SigningSession, minute}
use go_mpc_wallet.Storage.World.{World, ok, arrive, query, write, refused, unanswered}
use go_mpc_wallet.Storage.Postgres.{
  get_signing_session, update_signing_session, update_session_row, get_key_metadata,
  update_key_metadata, update_key, save_signing_session, upsert_session,
}
use go_mpc_wallet.Storage.Cache
use go_mpc_wallet.Session.Types.{Session, is_open, default_expiry, convert_storage_session}
use go_mpc_wallet.Session.Coherence.{SameData}
use go_mpc_wallet.Session.Manager.{
  Manager, new_session, finished, complete_keygen_session, finish_keygen, close_keygen,
  activate_key, find_stored, get_session, update_session, retry_save, create_session,
  create_key_gen_session,
}
use go_mpc_wallet.Session.Finish.{completed_row}
use go_mpc_wallet.Session.Keygen.{activated}
use go_mpc_wallet.Session.Update.{written_at}
use go_mpc_wallet.Session.Activation.{complete_keygen_session-ok, complete_keygen_session-stuck}
use go_mpc_wallet.Session.Retry.{failures, retry_save-total}
use go_mpc_wallet.Session.Create.{create_key_gen_session-total}
use go_mpc_wallet.Tests.Server.{server, key_of, session_of, wallet, fresh-IsCoherent}

abbrev key : KeyMetadata
key = key_of "k" "Pending"

abbrev keygen : SigningSession
keygen = session_of "k" "pending"

abbrev ended : SigningSession
ended = session_of "k" "completed"

abbrev start : World server
start = wallet key keygen 30

abbrev over : World server
over = wallet key ended 30

completes : (complete_keygen_session "k" "0d" start).0 ≡ ok tt
unfolding complete_keygen_session finish_keygen close_keygen activate_key get_key_metadata
    update_key_metadata update_key get_session find_stored Cache.get_session get_signing_session
    update_session update_signing_session Cache.update_session Cache.save_session query write arrive
    update_session_row lookup insert
completes = refl

complete_keygen_session-ok_example :
    (is_open keygen.status ≡ true)
    × (lookup "k" (complete_keygen_session "k" "0d" start).1.sessions
        ≡ some (completed_row keygen "0d" (get_session "k" start).1.now))
    × (lookup "k" (complete_keygen_session "k" "0d" start).1.keys
        ≡ some (activated key "0d" (get_session "k" start).1.now))
unfolding lookup
complete_keygen_session-ok_example =
    complete_keygen_session-ok "k" "0d" keygen start (fresh-IsCoherent key keygen 30) refl key refl
      refl completes

reads : (get_session "k" start).0 ≡ ok (convert_storage_session keygen)
unfolding get_session find_stored Cache.get_session get_signing_session query arrive lookup
reads = refl

early : written_at (get_session "k" start).1 < keygen.created_at + default_expiry
unfolding get_session find_stored Cache.get_session get_signing_session query arrive lookup
early = omega arith

updates :
    (update_session
      (finished (convert_storage_session keygen) "0d" (get_session "k" start).1.now)
      (get_session "k" start).1).0
    ≡ ok tt
unfolding complete_keygen_session finish_keygen close_keygen activate_key get_key_metadata
    update_key_metadata update_key get_session find_stored Cache.get_session get_signing_session
    update_session update_signing_session Cache.update_session Cache.save_session query write arrive
    update_session_row lookup insert
updates = refl

complete_keygen_session-stuck_example :
    ((complete_keygen_session "k" "0e" (complete_keygen_session "k" "0d" start).1).0 ≢ ok tt)
    × SameData
        (complete_keygen_session "k" "0e" (complete_keygen_session "k" "0d" start).1).1
        (complete_keygen_session "k" "0d" start).1
unfolding lookup
complete_keygen_session-stuck_example =
    complete_keygen_session-stuck "k" "0d" "0e" keygen (convert_storage_session keygen) start
      (fresh-IsCoherent key keygen 30) refl refl reads early updates

-- The first call is refused, and the second takes effect without an answer.
abbrev faulty : World server
faulty = record start {
  calls = record { fate = refused; takes = 1 } ∷ record { fate = unanswered; takes = 1 } ∷ [];
}

abbrev fresh : SigningSession
fresh = session_of "n" "pending"

retries : (retry_save 3 100 fresh faulty).0 ≡ ok tt
unfolding retry_save save_signing_session create_session create_key_gen_session get_signing_session
    Cache.save_session query write arrive upsert_session lookup insert
retries = refl

few_failures : failures faulty.calls ≤ 2
unfolding failures
few_failures = omega arith

retry_save-total_example : (retry_save 3 100 fresh faulty).0 ≡ ok tt
unfolding lookup
retry_save-total_example = retry_save-total fresh 2 100 faulty refl (omega (arith, few_failures))

abbrev manager : Manager
manager = record { timeout = 10 * minute }

abbrev plan : Session
plan = new_session manager "k" "k" "keygen" 1 2 ("a" ∷ []) 30

plans : (create_key_gen_session manager "k" "" 1 2 ("a" ∷ []) start).0 ≡ ok plan
unfolding retry_save save_signing_session create_session create_key_gen_session get_signing_session
    Cache.save_session query write arrive upsert_session lookup insert
plans = refl

create_key_gen_session-total_example :
    (create_key_gen_session manager "k" "" 1 2 ("a" ∷ []) faulty).0 ≡ ok plan
unfolding lookup
create_key_gen_session-total_example =
    create_key_gen_session-total manager "k" "" 1 2 ("a" ∷ []) faulty refl (omega arith)
