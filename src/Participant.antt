-- ===== src/Participant.antt =====
-- internal/mpc/participant: taking part in a key generation and in a signing. The engine, the storage of
-- key shares, and the bytes that hex.DecodeString gives, with its error or without, are parameters.
use go_mpc_wallet.Base.{
  ℕ, ◌≡◌, inl, inr, String, List, Option, none, some, lookup, arith, Option-cases, ◌+++◌,
}
use go_mpc_wallet.Storage.World.{
  Redis, World, M, Error, ok, err, message, fail, pure, wrapping, ◌>>=◌, ◌>>◌, Outcome-cases,
}
use go_mpc_wallet.Signing.Signer.{EngineRequest}
use go_mpc_wallet.Protocol.Types.{KeyGenRequest}
use go_mpc_wallet.Protocol.Encoding.{KeyShare}
use go_mpc_wallet.Protocol.Gg18.{KeyGenReply, SignReply}

pub record Party (R : Redis) : Type 0 where
  pub generate_shares : KeyGenRequest → M R KeyGenReply
  pub sign_with_engine : String → EngineRequest → M R SignReply
  pub keep_share : String → String → List ℕ → M R (Unit {0})
  pub read_share : String → String → M R (List ℕ)
  pub hex_bytes : String → List ℕ

-- `participant.KeyShare`
pub record OwnShare : Type 0 where
  pub key_id : String
  pub node_id : String
  pub share : List ℕ
  pub index : ℕ

pub record SignatureShare : Type 0 where
  pub session_id : String
  pub node_id : String
  pub share : List ℕ
  pub round : ℕ

module _ {R : Redis} (p : Party R) (this : String) where
  -- Service.StoreKeyShare, under the share's own node.
  unfoldable pub store_own_share : String → OwnShare → M R (Unit {0})
  store_own_share id s = wrapping "failed to store key share" (p.keep_share id s.node_id s.share)

  -- Service.GetKeyShare; the index is not stored.
  unfoldable pub get_own_share : String → M R OwnShare
  get_own_share id = do
    share ← wrapping "failed to get key share" (p.read_share id this)
    pure (record { key_id = id; node_id = this; share = share; index = 0 })

  abbrev own_share : KeyGenRequest → KeyShare → OwnShare
  own_share req s = record { key_id = req.key_id; node_id = this; share = s.share; index = s.index }

  abbrev keep_own : KeyGenRequest → Option KeyShare → M R OwnShare
  keep_own req none = fail (message (◌+++◌ "key share not found for node " this))
  keep_own req (some s) = do
    wrapping "failed to store key share" (store_own_share req.key_id (own_share req s))
    pure (own_share req s)

  -- ProtocolParticipant.ParticipateKeyGen
  unfoldable pub participate_keygen : KeyGenRequest → M R OwnShare
  participate_keygen req = do
    made ← wrapping "failed to generate key share" (p.generate_shares req)
    keep_own req (lookup this made.key_shares)

  -- ProtocolParticipant.ParticipateSign; the share that is read is not used.
  unfoldable pub participate_sign : String → String → List ℕ → List String → M R SignatureShare
  participate_sign session id msg ids = do
    s ← wrapping "failed to get key share" (get_own_share id)
    reply ← wrapping "failed to execute threshold signing" (
        p.sign_with_engine session
          (record { key_id = id; message = msg; message_hex = ""; node_ids = ids }))
    pure (record {
      session_id = session;
      node_id = this;
      share = p.hex_bytes reply.signature.hex;
      round = 0;
    })

  -- Where ParticipateKeyGen returns a share: the engine made it for this node, and it was stored
  -- under the key of the request.
  pub participate_keygen-ok :
      (req : KeyGenRequest) (w : World R) {own : OwnShare}
      → (participate_keygen req w).0 ≡ ok own
      → (made : KeyGenReply) × (s : KeyShare) × ((p.generate_shares req w).0 ≡ ok made)
        × (lookup this made.key_shares ≡ some s)
        × (own ≡ own_share req s)
        × ((p.keep_share req.key_id this s.share (p.generate_shares req w).1).0 ≡ ok tt)
  unfolding participate_keygen store_own_share
  participate_keygen-ok req w {own} done = elim (Outcome-cases (p.generate_shares req w).0) [
    | inr (e, lost) ↦ ground arith
    | inl (made, ran) ↦ elim (Option-cases (lookup this made.key_shares)) [
      | inl missing ↦ ground arith
      | inr (s, there) ↦
          elim (Outcome-cases
            (p.keep_share req.key_id this s.share (p.generate_shares req w).1).0) [
              | inr (e, lost) ↦ ground arith
              | inl (_, kept) ↦ (made, s, ran, there, ground arith, ground arith)
            ]
    ]
  ]

  -- Without a share of this node in the storage, ParticipateSign runs no protocol.
  pub participate_sign-unheld :
      (session id : String) (msg : List ℕ) (ids : List String) (w : World R) {e : Error}
      → (p.read_share id this w).0 ≡ err e
      → (participate_sign session id msg ids w).1 ≡ (p.read_share id this w).1
  unfolding participate_sign get_own_share
  participate_sign-unheld session id msg ids w {e} lost = ground arith
