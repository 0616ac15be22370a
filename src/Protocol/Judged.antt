-- ===== src/Protocol/Judged.antt =====
-- protocol/frost.go: the verification of what FROST has signed.
use go_mpc_wallet.Base.{ℕ, ◌≡◌, ◌≢◌, String, Bool, List, [], ◌∷◌, lookup, length, arith}
use go_mpc_wallet.Storage.World.{ok}
use go_mpc_wallet.Signing.Types.{Signature, PublicKey}
use go_mpc_wallet.Signing.Signer.{EngineRequest}
use go_mpc_wallet.Protocol.Types.{KeyGenRequest}
use go_mpc_wallet.Protocol.Gg18.{SignReply}
use go_mpc_wallet.Protocol.Run.{returns}
use go_mpc_wallet.Protocol.Verify.{
  Curves, verify_frost, verify_schnorr_signature, verify_ed25519_signature,
}
use go_mpc_wallet.Protocol.Frost.{EdTss, FrostMemory, generate_frost, threshold_sign_frost}
use go_mpc_wallet.Protocol.FrostKeys.{KeysFit, generate-KeysFit, threshold_sign_frost-fits}

-- Of an Ed25519 key and signature, by their lengths.
ed25519_judged :
    (C : Curves) (curve : String) (sig : Signature) (msg : List ℕ) (key : PublicKey)
    → length key.bytes ≡ 32
    → length sig.bytes ≡ 64
    → length msg ≢ 0
    → verify_frost C curve sig msg key ≡ ok (C.ed25519_verify key.bytes msg sig.bytes)
unfolding verify_frost verify_schnorr_signature verify_ed25519_signature
ed25519_judged C curve sig msg key key_size sig_size some_bytes = ground arith

-- What a process does with its engine.
pub data FrostOp : Type 0 where
  generates : Bool → String → ℕ → KeyGenRequest → FrostOp
  signs : Bool → String → String → String → EngineRequest → FrostOp

module _ {E : EdTss} where
  unfoldable pub performed : List FrostOp → FrostMemory E → FrostMemory E
  performed [] s = s
  performed (generates has_storage this nano req ∷ ops) s =
      performed ops (generate_frost has_storage this nano req s).1
  performed (signs has_storage curve this session req ∷ ops) s =
      performed ops (threshold_sign_frost has_storage curve this session req s).1

  performed-KeysFit :
      (ops : List FrostOp) (s : FrostMemory E) → KeysFit s → KeysFit (performed ops s)
  unfolding performed
  performed-KeysFit [] s fit = fit
  performed-KeysFit (generates has_storage this nano req ∷ ops) s fit =
      performed-KeysFit ops (generate_frost has_storage this nano req s).1
        (generate-KeysFit has_storage this nano req s fit)
  performed-KeysFit (signs has_storage curve this session req ∷ ops) s fit =
      performed-KeysFit ops (threshold_sign_frost has_storage curve this session req s).1
        (threshold_sign_frost-fits has_storage curve this session req s fit).0

  fresh-KeysFit : (t : E.T) → KeysFit {E = E} (record { key_records = []; below = t })
  unfolding lookup
  fresh-KeysFit t id r held = ground arith

module _ (E : EdTss) where
  -- Where tss-lib's standard forms of an Ed25519 key and signature have 32 and 64 bytes: after any
  -- key generations and signings of a process with its FROST engine, a signature that
  -- ThresholdSign returns is never refused for the form of the key or of the signature. With the
  -- key that is returned, VerifySignature of an engine of any curve gives, for a message of at
  -- least one byte, just what the Ed25519 verification gives.
  pub threshold_sign_frost-judged :
      (C : Curves) (ops : List FrostOp) (t : E.T) (has_storage : Bool) (curve this session : String)
      (req : EngineRequest) {reply : SignReply}
      → (threshold_sign_frost has_storage curve this session req
          (performed {E = E} ops (record { key_records = []; below = t }))).0
        ≡ returns reply
      → (own_curve : String) (msg : List ℕ) → length msg ≢ 0
      → verify_frost C own_curve reply.signature msg reply.public_key
        ≡ ok (C.ed25519_verify reply.public_key.bytes msg reply.signature.bytes)
  threshold_sign_frost-judged C ops t has_storage curve this session req {reply} done own_curve msg
        some_bytes =
      let s : FrostMemory E = record { key_records = []; below = t } in
      let fit = performed-KeysFit ops s (fresh-KeysFit {E = E} t) in
      let (key, sig) =
        (threshold_sign_frost-fits has_storage curve this session req (performed ops s) fit).1 reply
          done in
      ed25519_judged C own_curve reply.signature msg reply.public_key key sig some_bytes
