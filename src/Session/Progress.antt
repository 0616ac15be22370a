-- ===== src/Session/Progress.antt =====
-- internal/mpc/session/store.go: the progress of a protocol's rounds. What Prometheus observes of it
-- is left out.
use go_mpc_wallet.Base.{
  ℕ, ◌+◌, ◌-◌, ◌*◌, String, Option, none, some, List, [], ◌∷◌, ltb, if◌then◌else◌, str_eq,
}
use go_mpc_wallet.Base.Int.{is_positive, quot, scale, shift}
use go_mpc_wallet.Storage.Types.{SigningSession, millisecond, minute}
use go_mpc_wallet.Storage.World.{Redis, M, message, pure, fail, current_time, wrapping, ◌>>=◌, ◌>>◌}
use go_mpc_wallet.Storage.Postgres.{get_signing_session, update_signing_session}
use go_mpc_wallet.Storage.Cache
use go_mpc_wallet.Session.Types.{RoundProgress}
use go_mpc_wallet.Session.Manager.{find_stored}

abbrev pub nonempty_or {ℓ} : {A : Type ℓ} → List A → List A → List A
nonempty_or [] old = old
nonempty_or (x ∷ xs) old = x ∷ xs

abbrev pub text_or : String → String → String
text_or s old = if str_eq s "" then old else s

abbrev pub positive_or : ℕ → ℕ → ℕ
positive_or n old = if ltb 0 n then n else old

-- What the progress sets; its zero values leave the stored ones. The message of a round goes into
-- the column of the signature.
unfoldable pub merge : RoundProgress → SigningSession → SigningSession
merge p s = record s {
  current_round = positive_or p.round s.current_round;
  total_rounds = positive_or p.total_rounds s.total_rounds;
  participating_nodes = nonempty_or p.node_ids s.participating_nodes;
  status = text_or p.status s.status;
  duration_ms = (if is_positive p.duration then quot p.duration millisecond else s.duration_ms);
  signature = text_or p.note s.signature;
}

abbrev pub remaining : ℕ → ℕ → ℕ
remaining expires_at now = if ltb now expires_at then expires_at - now else minute

unfoldable pub convert_round_progress : SigningSession → ℕ → RoundProgress
convert_round_progress s now = record {
  session_id = s.session_id;
  key_id = s.key_id;
  protocol = s.protocol;
  status = s.status;
  threshold = s.threshold;
  total_nodes = s.total_nodes;
  round = s.current_round;
  total_rounds = s.total_rounds;
  node_ids = s.participating_nodes;
  note = s.signature;
  duration = scale s.duration_ms millisecond;
  updated_at = shift s.created_at (scale s.duration_ms millisecond);
  expires_at = now + 5 * minute;
}

module _ {R : Redis} where
  -- The progress, not nil, of a session that has an identifier.
  unfoldable pub store_progress : RoundProgress → M R (Unit {0})
  store_progress p = do
    stored ← wrapping "get signing session" (get_signing_session p.session_id)
    wrapping "update session in metadata store" (update_signing_session (merge p stored))
    now ← current_time
    wrapping "update session cache"
        (Cache.update_session (merge p stored) (remaining p.expires_at now))

  -- `none` is a nil progress.
  unfoldable pub save_round_progress : Option RoundProgress → M R (Unit {0})
  save_round_progress none = fail (message "round progress is nil")
  save_round_progress (some p) =
      if str_eq p.session_id "" then fail (message "session id is empty") else store_progress p

  unfoldable pub load_round_progress : String → M R RoundProgress
  load_round_progress id = if str_eq id "" then fail (message "session id is empty") else do
    stored ← wrapping "get session" (find_stored id)
    now ← current_time
    pure (convert_round_progress stored now)
