-- ===== src/Signing/Service.antt =====
-- internal/mpc/signing/service.go: ThresholdSign and Verify. The identifier that `uuid.New` draws is
-- an argument. The call of the leader, the check of a signature, and what the rest of the system
-- does during a wait are what the service is given. The numbers in the text of an error are left out,
-- and a threshold is taken to fit the 32 bits that the request to the leader has for it.
use go_mpc_wallet.Base.{
  ℕ, zero, suc, ◌+◌, ◌*◌, String, Bool, true, false, ◌&&◌, not, Option, none, some, List, [], ◌∷◌,
  map, length, take, drop, ltb, leb, if◌then◌else◌, str_eq, ◌+++◌,
}
use go_mpc_wallet.Base.Hex.{decode_string, encode_to_string}
use go_mpc_wallet.Storage.Types.{KeyMetadata, NodeInfo, second, minute}
use go_mpc_wallet.Storage.World.{
  Redis, World, M, Outcome, ok, err, Error, driver, message, wrap, pure, fail, current_time,
  wrapping, ◌>>=◌, ◌>>◌,
}
use go_mpc_wallet.Session.Types.{Session, completed, failed}
use go_mpc_wallet.Session.Manager.{
  Manager, create_session, get_session, update_session, sleep, ignoring_errors,
}
use go_mpc_wallet.Key.Service.{get_key}
use go_mpc_wallet.Node.Types.{participant, active_node}
use go_mpc_wallet.Node.Discovery.{Finder, discover_nodes}
use go_mpc_wallet.Signing.Types.{
  SignRequest, SignResponse, VerifyRequest, VerifyResponse, Signature, PublicKey, StartSign,
}
use go_mpc_wallet.Signing.Protocol.{infer_protocol}

-- `grpcClient.SendStartSign` (whether the leader started, and its message), the engine's
-- `VerifySignature`, and what the other processes do to the state while the service sleeps.
pub record Network (R : Redis) : Type 0 where
  pub send_start_sign : String → StartSign → M R (Bool × String)
  pub verify_signature : Signature → List ℕ → PublicKey → Outcome Bool
  pub meanwhile : World R → World R

-- The service's fields.
pub record Signer (R : Redis) : Type 0 where
  pub network : Network R
  pub finder : Finder R
  pub manager : Manager
  pub default_protocol : String

pub data Polled : Type 0 where
  signed : String → Polled
  late : Polled
  out_of_fuel : Polled

abbrev pub poll_interval : ℕ
poll_interval = 2 * second

abbrev pub max_wait : ℕ
max_wait = 5 * minute

abbrev pub message_of : String → List ℕ → Option (List ℕ)
message_of hex raw = if str_eq hex "" then some raw else decode_string hex

-- R and S are set only if the signature is long enough.
abbrev pub signature_of : String → List ℕ → Signature
signature_of hex bytes = record {
  bytes = bytes;
  hex = hex;
  r = if leb 64 (length bytes) then take 32 bytes else [];
  s = if leb 64 (length bytes) then take 32 (drop 32 bytes) else [];
}

module _ {R : Redis} where
  abbrev pub decoded : {A : Type 0} → String → Option A → M R A
  decoded s none = fail (wrap s driver)
  decoded s (some a) = pure a

  abbrev pub returning : {A : Type 0} → Outcome A → M R A
  returning r w = (r, w)

  module _ (net : Network R) where
    unfoldable pub wait : World R → World R
    wait w = sleep poll_interval (net.meanwhile w)

    abbrev is_signed : Session → Bool
    is_signed s = str_eq s.status completed && not (str_eq s.signature "")

    -- The loop that reads the session until it is signed, has failed, or the deadline is over.
    unfoldable pub poll : ℕ → ℕ → String → M R Polled
    poll zero deadline id w = (ok out_of_fuel, w)
    poll (suc f) deadline id w = elim (ltb w.now deadline) [
      | false ↦ (ok late, w)
      | true ↦
          let (r, v) = get_session id w in
          elim r [
            | err e ↦ (err (wrap "failed to get session status" e), v)
            | ok s ↦ elim (is_signed s) [
              | true ↦ (ok (signed s.signature), v)
              | false ↦ elim (str_eq s.status failed) [
                | true ↦ (err (message "signing session failed"), v)
                | false ↦ poll f deadline id (wait v)
              ]
            ]
          ]
    ]

    -- The failure of the session is recorded as far as that works.
    unfoldable pub abandon : {A : Type 0} → Session → Error → M R A
    abandon s e = ignoring_errors (update_session (record s { status = failed })) >> fail e

    abbrev pub response : SignRequest → KeyMetadata → Session → List ℕ → String → ℕ → SignResponse
    response req k s msg signature now = record {
      signature = signature;
      key_id = req.key_id;
      public_key = k.public_key;
      message = encode_to_string msg;
      chain_type = req.chain_type;
      session_id = s.session_id;
      signed_at = now;
      participating_nodes = s.participating_nodes;
    }

    abbrev respond : SignRequest → KeyMetadata → Session → List ℕ → String → Bool → M R SignResponse
    respond req k s msg signature true w = (ok (response req k s msg signature w.now), w)
    respond req k s msg signature false w = (err (message "signature verification failed"), w)

    -- Step 8 and 9: the signature is verified, and the response built.
    unfoldable pub check_signature :
        SignRequest → KeyMetadata → Session → List ℕ → String → M R SignResponse
    check_signature req k s msg signature = do
      key ← decoded "failed to decode public key hex" (decode_string k.public_key)
      bytes ← decoded "failed to decode signature hex" (decode_string signature)
      valid ← wrapping "failed to verify signature" (
          returning (
            net.verify_signature (signature_of signature bytes) msg
              (record { bytes = key; hex = k.public_key })))
      respond req k s msg signature valid

    abbrev pub poll_fuel : ℕ
    poll_fuel = 151

    abbrev conclude : SignRequest → KeyMetadata → Session → List ℕ → Polled → M R SignResponse
    conclude req k s msg (signed signature) = check_signature req k s msg signature
    conclude req k s msg late = abandon s (message "signing timeout")
    conclude req k s msg out_of_fuel = fail (message "out of fuel")

    -- Step 7: the wait for the signature.
    unfoldable pub await : SignRequest → KeyMetadata → Session → List ℕ → M R SignResponse
    await req k s msg = do
      now ← current_time
      polled ← poll poll_fuel (now + max_wait) s.session_id
      conclude req k s msg polled

    abbrev pub start_request : SignRequest → KeyMetadata → Session → List ℕ → StartSign
    start_request req k s msg = record {
      session_id = s.session_id;
      key_id = req.key_id;
      message = msg;
      message_hex = encode_to_string msg;
      protocol = s.protocol;
      threshold = k.threshold;
      total_nodes = k.total_nodes;
      node_ids = s.participating_nodes;
    }

    -- Step 6: the first node is the leader, which is told to start.
    unfoldable pub lead :
        SignRequest → KeyMetadata → Session → List ℕ → List String → M R SignResponse
    lead req k s msg [] w = (err (message "no participating nodes available"), w)
    lead req k s msg (leader ∷ _) w =
        let (r, v) = net.send_start_sign leader (start_request req k s msg) w in
        elim r [
          | err e ↦ abandon s (wrap "failed to call StartSign on leader participant" e) v
          | ok (begun, text) ↦ elim begun [
            | true ↦ await req k s msg v
            | false ↦ abandon s (message (◌+++◌ "StartSign failed: " text)) v
          ]
        ]

    -- Steps 4, from the choice of the nodes on, and 5.
    unfoldable pub sign_with : SignRequest → KeyMetadata → Session → M R SignResponse
    sign_with req k s = do
      wrapping "failed to update session with participating nodes" (update_session s)
      msg ← decoded "failed to decode message hex" (message_of req.message_hex req.message)
      lead req k s msg s.participating_nodes

    abbrev pub chosen : Session → ℕ → List NodeInfo → Session
    chosen s threshold nodes = record s {
      participating_nodes = map (λ n. n.node_id) (take threshold nodes);
    }

    unfoldable pub gather : SignRequest → KeyMetadata → Session → List NodeInfo → M R SignResponse
    gather req k s nodes =
        if ltb (length nodes) k.threshold
        then fail (message "insufficient active nodes")
        else sign_with req k (chosen s k.threshold nodes)

  unfoldable pub threshold_sign : Signer R → String → SignRequest → M R SignResponse
  threshold_sign g uuid req = do
    k ← wrapping "failed to get key" (get_key req.key_id)
    s ← wrapping "failed to create signing session" (
        create_session g.manager uuid req.key_id
          (infer_protocol k.algorithm k.curve g.default_protocol) k.threshold k.total_nodes)
    nodes ←
        wrapping "failed to discover participants"
          (discover_nodes g.finder participant active_node k.threshold)
    gather g.network req k s nodes

  -- Verify. The address of the response is empty, as in the source.
  abbrev long_enough : List ℕ → M R (Unit {0})
  long_enough bytes =
      if ltb (length bytes) 64 then fail (message "invalid signature length") else pure tt

  unfoldable pub verify : Network R → VerifyRequest → M R VerifyResponse
  verify net req = do
    bytes ← decoded "failed to decode signature hex" (decode_string req.signature)
    long_enough bytes
    key ← decoded "failed to decode public key hex" (decode_string req.public_key)
    msg ← decoded "failed to decode message hex" (message_of req.message_hex req.message)
    valid ← wrapping "failed to verify signature" (
        returning (
          net.verify_signature (signature_of req.signature bytes) msg
            (record { bytes = key; hex = req.public_key })))
    now ← current_time
    pure (record { valid = valid; public_key = req.public_key; address = ""; verified_at = now })
