-- ===== src/Tests/Sessions.antt =====
-- Examples of the session manager.
use go_mpc_wallet.Base.{
  ◌+◌, ◌*◌, ◌≡◌, ◌<◌, refl, true, false, none, some, [], lookup, arith, ap, sym, insert,
}
use go_mpc_wallet.Storage.Types.{SigningSession, minute}
use go_mpc_wallet.Storage.World.{World, session_json, ok, arrive, works, first_fate}
use go_mpc_wallet.Storage.World.{query, write}
use go_mpc_wallet.Storage.Postgres.{get_signing_session, update_signing_session, update_session_row}
use go_mpc_wallet.Storage.Cache
use go_mpc_wallet.Storage.Cache.{session_key}
use go_mpc_wallet.Session.Types.{is_open, convert_storage_session, default_expiry}
use go_mpc_wallet.Session.Coherence.{IsCoherent}
use go_mpc_wallet.Session.Manager.{
  contains, admit, expire, find_stored, update_session, join_session, complete_session,
  cancel_session, check_timeout, get_session,
}
use go_mpc_wallet.Session.Members.{AreDistinct, joined_row}
use go_mpc_wallet.Session.Finish.{HoldsButTime, completed_row, complete_session-Holds}
use go_mpc_wallet.Session.Timeout.{check_timeout-unseen}
use go_mpc_wallet.Session.Update.{written_at}
use go_mpc_wallet.Session.Join.{join_session-ok}
use go_mpc_wallet.Tests.Server.{
  server, key_of, session_of, wallet, get_cell, set_cell, found_session, fresh-IsCoherent,
}

abbrev session : SigningSession
session = session_of "s" "pending"

abbrev closed_session : SigningSession
closed_session = session_of "s" "completed"

abbrev open_wallet : World server
open_wallet = wallet (key_of "k" "Active") session 30

abbrev closed_wallet : World server
closed_wallet = wallet (key_of "k" "Active") closed_session 30

joins : (join_session "s" "b" open_wallet).0 ≡ ok tt
unfolding join_session admit get_session find_stored Cache.get_session get_signing_session
    update_session update_signing_session Cache.update_session Cache.save_session query write arrive
    update_session_row lookup insert contains
joins = refl

join_session-ok_example :
    (is_open session.status ≡ true)
    × (lookup "s" (join_session "s" "b" open_wallet).1.sessions ≡ some (joined_row session "b"))
    × (contains "b" (joined_row session "b").participating_nodes ≡ true)
    × AreDistinct (joined_row session "b").participating_nodes
unfolding lookup contains
join_session-ok_example =
    join_session-ok "s" "b" session open_wallet (fresh-IsCoherent (key_of "k" "Active") session 30)
      refl (refl, tt) joins

completes : (complete_session "s" "0c" open_wallet).0 ≡ ok tt
unfolding complete_session get_session find_stored Cache.get_session get_signing_session
    update_session update_signing_session Cache.update_session Cache.save_session query write arrive
    update_session_row lookup insert
completes = refl

cancels : (cancel_session "s" open_wallet).0 ≡ ok tt
unfolding cancel_session get_session find_stored Cache.get_session get_signing_session
    update_session update_signing_session Cache.update_session Cache.save_session query write arrive
    update_session_row lookup insert
cancels = refl

early : written_at (get_session "s" open_wallet).1 < session.created_at + default_expiry
unfolding get_session find_stored Cache.get_session get_signing_session query arrive lookup
early = omega arith

complete_session-Holds_example :
    HoldsButTime "s"
      (completed_row session "0c" (get_session "s" open_wallet).1.now)
      (complete_session "s" "0c" open_wallet).1
unfolding lookup
complete_session-Holds_example =
    complete_session-Holds "s" session open_wallet
      (fresh-IsCoherent (key_of "k" "Active") session 30) refl "0c" early completes

-- The session's five minutes are over.
abbrev late_wallet : World server
late_wallet = wallet (key_of "k" "Active") session (6 * minute)

expires : (check_timeout "s" late_wallet).0 ≡ ok true
unfolding check_timeout expire get_session find_stored Cache.get_session get_signing_session
    update_session update_signing_session Cache.update_session Cache.save_session query write arrive
    update_session_row lookup insert
expires = refl

lives : (check_timeout "s" open_wallet).0 ≡ ok false
unfolding check_timeout expire get_session find_stored Cache.get_session get_signing_session query
    arrive lookup
lives = refl

-- A copy of the session in the cache, without an expiry.
abbrev cached_wallet : World server
cached_wallet = record late_wallet {
  cache = set_cell (session_key "s") (session_json session) none [];
}

cached-IsCoherent : IsCoherent "s" cached_wallet
unfolding lookup insert
cached-IsCoherent = record {
  filed = λ t found. ap (λ r. r.session_id) (sym (found_session session t "s" found));
  cached = λ t e later hit. (session, ground (arith, hit), refl);
}

cached_expires : (check_timeout "s" cached_wallet).0 ≡ ok true
unfolding check_timeout expire get_session find_stored Cache.get_session get_signing_session
    update_session update_signing_session Cache.update_session Cache.save_session query write arrive
    update_session_row lookup insert
cached_expires = refl

still_cached :
    get_cell (session_key "s") (arrive (check_timeout "s" cached_wallet).1).now cached_wallet.cache
    ≡ some (session_json session)
unfolding lookup insert
still_cached = refl

quiet : first_fate (check_timeout "s" cached_wallet).1.calls ≡ works
unfolding check_timeout expire get_session find_stored Cache.get_session get_signing_session
    update_session update_signing_session Cache.update_session Cache.save_session query write arrive
    update_session_row lookup insert
quiet = refl

check_timeout-unseen_example :
    (get_session "s" (check_timeout "s" cached_wallet).1).0 ≡ ok (convert_storage_session session)
unfolding lookup
check_timeout-unseen_example =
    check_timeout-unseen "s" session session cached_wallet cached-IsCoherent refl cached_expires
      still_cached quiet

reads : (get_session "s" cached_wallet).0 ≡ ok (convert_storage_session session)
unfolding get_session find_stored Cache.get_session query arrive lookup insert
reads = refl
