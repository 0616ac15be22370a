-- ===== src/Tests/Signatures.antt =====
-- Examples of the signing service.
use go_mpc_wallet.Base.{
  ℕ, ◌+◌, ◌*◌, ◌<◌, ◌≡◌, ◌≢◌, refl, String, true, none, some, [], ◌∷◌, Dict, lookup, insert, keep,
  values, length, arith, if◌then◌else◌, ◌==◌,
}
use go_mpc_wallet.Base.Hex.{decode_string, encode_to_string}
use go_mpc_wallet.Base.Sorting.{sort}
use go_mpc_wallet.Storage.Types.{KeyMetadata, SigningSession, minute}
use go_mpc_wallet.Storage.World.{World, Outcome, ok, err, driver, arrive, query, write}
use go_mpc_wallet.Storage.Postgres.{
  get_key_metadata, list_node_infos, select_nodes, save_signing_session, upsert_session,
  get_signing_session, update_signing_session, update_session_row,
}
use go_mpc_wallet.Storage.Cache
use go_mpc_wallet.Session.Types.{Session, completed}
use go_mpc_wallet.Session.Manager.{create_session, get_session, update_session, find_stored}
use go_mpc_wallet.Key.Service.{get_key}
use go_mpc_wallet.Node.Manager.{list_nodes}
use go_mpc_wallet.Node.Discovery.{discover_nodes, supplemented}
use go_mpc_wallet.Signing.Types.{
  SignRequest, SignResponse, BatchSignResponse, VerifyRequest, VerifyResponse,
}
use go_mpc_wallet.Signing.Protocol.{infer_protocol, lower_eq}
use go_mpc_wallet.Signing.Service.{
  Network, Signer, signed, out_of_fuel, poll, poll_interval, max_wait, wait, check_signature, await,
  lead, sign_with, gather, threshold_sign, verify,
}
use go_mpc_wallet.Signing.Polling.{RunsForward, turn, poll-fuelled, poll-signed}
use go_mpc_wallet.Signing.Verified.{IsVerified, threshold_sign-ok}
use go_mpc_wallet.Signing.Batch.{batch_sign, occurs, successes, batch_sign-ok}
use go_mpc_wallet.Tests.Server.{server, key_of, session_of, wallet}

-- While the service waits, the participants sign every session, and the cache is emptied.
abbrev signed_rows : Dict SigningSession → Dict SigningSession
signed_rows [] = []
signed_rows ((id, s) ∷ rows) =
    (id, record s { status = "completed"; signature = "0e0f" }) ∷ signed_rows rows

abbrev network : Network server
network = record {
  send_start_sign = λ node req w. (ok (true, ""), w);
  verify_signature = λ sig msg key. ok true;
  meanwhile = λ w. record w { sessions = signed_rows w.sessions; cache = [] };
}

abbrev signer : Signer server
signer = record {
  network = network;
  finder = record { catalog = none; order = values };
  manager = record { timeout = 10 * minute };
  default_protocol = "gg20";
}

abbrev start : World server
start = wallet (key_of "k" "Active") (session_of "s" "active") 30

abbrev request : SignRequest
request = record { key_id = "k"; message = 5 ∷ []; message_hex = ""; chain_type = "ethereum" }

abbrev answer : SignResponse
answer = record {
  signature = "0e0f";
  key_id = "k";
  public_key = "0a0b";
  message = encode_to_string (5 ∷ []);
  chain_type = "ethereum";
  session_id = "session-u";
  signed_at = 30 + poll_interval;
  participating_nodes = "a" ∷ [];
}

signs : (threshold_sign signer "u" request start).0 ≡ ok answer
unfolding threshold_sign gather sign_with lead await poll wait check_signature infer_protocol
    lower_eq discover_nodes supplemented list_nodes list_node_infos select_nodes keep sort
    create_session save_signing_session upsert_session get_key get_key_metadata get_session
    find_stored Cache.get_session get_signing_session update_session update_signing_session
    Cache.update_session Cache.save_session query write arrive update_session_row lookup insert
    decode_string
signs = refl

threshold_sign-ok_example :
    (k : KeyMetadata) × (lookup "k" start.keys ≡ some k)
    × IsVerified network request k answer
    × (1 ≡ k.threshold)
    × (0 < k.threshold)
threshold_sign-ok_example = threshold_sign-ok signer "u" request start signs

forward : RunsForward network
forward = λ w. omega arith

poll-fuelled_example : (poll network 151 (30 + max_wait) "s" start).0 ≢ ok out_of_fuel
poll-fuelled_example = poll-fuelled network (30 + max_wait) "s" 150 start forward (omega arith)

finishes : (poll network 2 (30 + max_wait) "s" start).0 ≡ ok (signed "0e0f")
unfolding threshold_sign gather sign_with lead await poll wait check_signature infer_protocol
    lower_eq discover_nodes supplemented list_nodes list_node_infos select_nodes keep sort
    create_session save_signing_session upsert_session get_key get_key_metadata get_session
    find_stored Cache.get_session get_signing_session update_session update_signing_session
    Cache.update_session Cache.save_session query write arrive update_session_row lookup insert
    decode_string
finishes = refl

poll-signed_example :
    (k : ℕ) × (s : Session) × (k < 2)
    × ((turn network (30 + max_wait) "s" k start).now < 30 + max_wait)
    × (get_session "s" (turn network (30 + max_wait) "s" k start)
        ≡ (ok s, (poll network 2 (30 + max_wait) "s" start).1))
    × (s.status ≡ completed)
    × (s.signature ≡ "0e0f")
    × (◌≢◌ {A = String} "0e0f" "")
poll-signed_example = poll-signed network (30 + max_wait) "s" 2 start finishes

abbrev claim : VerifyRequest
claim = record {
  signature =
      "01010101010101010101010101010101010101010101010101010101010101010101010101010101010101010101010101010101010101010101010101010101";
  message = [];
  message_hex = "05";
  public_key = "0a0b";
  chain_type = "";
}

abbrev verdict : VerifyResponse
verdict = record { valid = true; public_key = "0a0b"; address = ""; verified_at = 30 }

verifies : (verify network claim start).0 ≡ ok verdict
unfolding verify decode_string
verifies = refl

-- The second of three messages fails.
abbrev outcomes : ℕ → Outcome SignResponse
outcomes i = if i == 1 then err driver else ok answer

each_finishes : (j : ℕ) → j < 3 → occurs j (2 ∷ 0 ∷ 1 ∷ []) ≡ true
unfolding occurs
each_finishes j lt = ground arith

batch_sign-ok_example :
    (b : BatchSignResponse) × (batch_sign 3 outcomes (2 ∷ 0 ∷ 1 ∷ []) ≡ ok b)
    × (b.total ≡ 3)
    × (b.success + b.failed ≡ 3)
    × (length b.signatures ≡ b.success)
    × (b.signatures ≡ successes 3 0 outcomes)
batch_sign-ok_example = batch_sign-ok outcomes 3 (2 ∷ 0 ∷ 1 ∷ []) (omega arith) each_finishes
