-- ===== src/Signing/Signer.antt =====
-- internal/mpc/signing/threshold_sign.go: ThresholdSigner.Sign, which runs the protocol engine in the
-- same process. The engine is a parameter.
use go_mpc_wallet.Base.{
  ◌≡◌, inl, inr, String, Bool, true, false, some, List, [], lookup, arith, Option-cases, ◌∙◌,
}
use go_mpc_wallet.Base.Hex.{encode_to_string}
use go_mpc_wallet.Base.{ℕ}
use go_mpc_wallet.Storage.Types.{KeyMetadata}
use go_mpc_wallet.Storage.World.{
  Redis, World, M, Outcome, ok, err, message, wrap, fail, current_time, pure, wrapping, ◌>>=◌, ◌>>◌,
  Outcome-cases,
}
use go_mpc_wallet.Storage.Postgres.{get_key_metadata}
use go_mpc_wallet.Storage.Laws.{get_key_metadata-ok}
use go_mpc_wallet.Session.Types.{Session, failed}
use go_mpc_wallet.Session.Manager.{
  Manager, create_session, update_session, complete_session, ignoring_errors,
}
use go_mpc_wallet.Key.Service.{get_key}
use go_mpc_wallet.Signing.Types.{SignRequest, SignResponse, Signature, PublicKey}
use go_mpc_wallet.Signing.Service.{decoded, returning, message_of}

-- `protocol.SignRequest`
pub record EngineRequest : Type 0 where
  pub key_id : String
  pub message : List ℕ
  pub message_hex : String
  pub node_ids : List String

-- The engine's `ThresholdSign`, of the session's identifier and a request, and `VerifySignature`.
pub record Engine (R : Redis) : Type 0 where
  pub run_protocol : String → EngineRequest → M R Signature
  pub verify_signature : Signature → List ℕ → PublicKey → Outcome Bool

abbrev engine_request : SignRequest → Session → List ℕ → EngineRequest
engine_request req s msg = record {
  key_id = req.key_id;
  message = msg;
  message_hex = encode_to_string msg;
  node_ids = s.participating_nodes;
}

-- The public key that the engine is given has no bytes.
abbrev pub hex_key : KeyMetadata → PublicKey
hex_key k = record { bytes = []; hex = k.public_key }

module _ {R : Redis} where
  abbrev require_valid : Bool → M R (Unit {0})
  require_valid true = pure tt
  require_valid false = fail (message "signature verification failed")

  -- Steps 6 to 8.
  unfoldable pub accept :
      Engine R → SignRequest → KeyMetadata → Session → List ℕ → Signature → M R SignResponse
  accept e req k s msg sig = do
    valid ←
        wrapping "failed to verify signature" (returning (e.verify_signature sig msg (hex_key k)))
    require_valid valid
    wrapping "failed to complete session" (complete_session s.session_id sig.hex)
    now ← current_time
    pure (record {
      signature = sig.hex;
      key_id = req.key_id;
      public_key = k.public_key;
      message = encode_to_string msg;
      chain_type = req.chain_type;
      session_id = s.session_id;
      signed_at = now;
      participating_nodes = s.participating_nodes;
    })

  -- Step 5: the protocol; its failure is recorded as far as that works.
  unfoldable pub run_engine :
      Engine R → SignRequest → KeyMetadata → Session → List ℕ → M R SignResponse
  run_engine e req k s msg w =
      let (r, v) = e.run_protocol s.session_id (engine_request req s msg) w in
      elim r [
        | ok sig ↦ accept e req k s msg sig v
        | err f ↦
            (ignoring_errors (update_session (record s { status = failed }))
                >> fail (wrap "failed to execute threshold signing" f))
              v
      ]

  unfoldable pub sign : Engine R → Manager → String → SignRequest → M R SignResponse
  sign e m uuid req = do
    k ← wrapping "failed to get key" (get_key req.key_id)
    s ←
        wrapping "failed to create signing session"
          (create_session m uuid req.key_id "gg20" k.threshold k.total_nodes)
    msg ← decoded "failed to decode message hex" (message_of req.message_hex req.message)
    run_engine e req k s msg

module _ {R : Redis} (e : Engine R) (m : Manager) (uuid : String) (req : SignRequest) where
  created_nodes :
      (k : KeyMetadata) (w : World R) {s : Session}
      → (create_session m uuid req.key_id "gg20" k.threshold k.total_nodes w).0 ≡ ok s
      → s.participating_nodes ≡ []
  unfolding create_session
  created_nodes k w done = ground arith

  accept-ok :
      (k : KeyMetadata) (s : Session) (msg : List ℕ) (sig : Signature) (w : World R)
      {r : SignResponse}
      → (accept e req k s msg sig w).0 ≡ ok r
      → (e.verify_signature sig msg (hex_key k) ≡ ok true)
        × (r.signature ≡ sig.hex)
        × (r.participating_nodes ≡ s.participating_nodes)
        × ((complete_session s.session_id sig.hex w).0 ≡ ok tt)
  unfolding accept
  accept-ok k s msg sig w done = ground arith

  -- A signature that ThresholdSigner.Sign returns is the text of one that the protocol engine
  -- finds valid, for the message that was asked for and under the public key in the row of the key
  -- asked for. The response names no participating node.
  pub sign-ok :
      (w : World R) {r : SignResponse}
      → (sign e m uuid req w).0 ≡ ok r
      → (k : KeyMetadata) × (msg : List ℕ) × (sig : Signature) × (lookup req.key_id w.keys ≡ some k)
        × (message_of req.message_hex req.message ≡ some msg)
        × (e.verify_signature sig msg (hex_key k) ≡ ok true)
        × (r.signature ≡ sig.hex)
        × (r.participating_nodes ≡ [])
  unfolding sign run_engine get_key
  sign-ok w {r} done = elim (Outcome-cases (get_key_metadata req.key_id w).0) [
    | inr (f, missing) ↦ ground arith
    | inl (k, read) ↦
        let created =
          create_session m uuid req.key_id "gg20" k.threshold k.total_nodes
            (get_key_metadata req.key_id w).1 in
        elim (Outcome-cases created.0) [
          | inr (f, lost) ↦ ground arith
          | inl (s, made) ↦ elim (Option-cases (message_of req.message_hex req.message)) [
            | inl bad ↦ ground arith
            | inr (msg, asked) ↦
                let ran = e.run_protocol s.session_id (engine_request req s msg) created.1 in
                elim (Outcome-cases ran.0) [
                  | inr (f, lost) ↦ ground arith
                  | inl (sig, signed) ↦
                      let (valid, same, nodes, _) =
                        accept-ok k s msg sig ran.1 {r = r} (ground arith) in
                      (
                        k,
                        msg,
                        sig,
                        get_key_metadata-ok req.key_id w read,
                        asked,
                        valid,
                        same,
                        nodes ∙ created_nodes k (get_key_metadata req.key_id w).1 made,
                      )
                ]
          ]
        ]
  ]
