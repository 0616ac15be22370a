-- ===== src/Protocol/Verify.antt =====
-- protocol/gg18.go, verifyECDSASignature, and protocol/frost.go, the verification of FROST. The
-- libraries for the two curves are parameters. Signatures and keys are never nil here.
use go_mpc_wallet.Base.{
  ℕ, ◌≡◌, ◌≢◌, ◌⊎◌, refl, sym, ◌∙◌, inl, inr, String, Bool, true, false, ◌||◌, not, List, [],
  Option, none, some, length, ◌==◌, if◌then◌else◌, arith,
}
use go_mpc_wallet.Storage.World.{Redis, World, Outcome, ok, err, message, wrap, driver}
use go_mpc_wallet.Signing.Types.{Signature, PublicKey, SignRequest, SignResponse}
use go_mpc_wallet.Signing.Protocol.{lower_eq}
use go_mpc_wallet.Signing.Signer.{Engine, sign, hex_key, sign-ok}
use go_mpc_wallet.Session.Manager.{Manager}

-- sha256.Sum256, ecdsa.ParseDERSignature, secp256k1.ParsePubKey, the verification of a parsed
-- signature, and ed25519.Verify.
pub record Curves : Type 1 where
  pub Parsed : Type 0
  pub Point : Type 0
  pub sum256 : List ℕ → List ℕ
  pub parse_der_signature : List ℕ → Option Parsed
  pub parse_pub_key : List ℕ → Option Point
  pub check : Parsed → List ℕ → Point → Bool
  pub ed25519_verify : List ℕ → List ℕ → List ℕ → Bool

module _ (C : Curves) where
  -- The three checks that both verifications start with.
  abbrev present : Signature → List ℕ → PublicKey → Outcome Bool → Outcome Bool
  present sig msg key rest =
      if length sig.bytes == 0
      then err (message "signature bytes missing")
      else (if length msg == 0
          then err (message "message is empty")
          else (if length key.bytes == 0 then err (message "public key is empty") else rest))

  abbrev check_parsed : List ℕ → Option C.Parsed → Option C.Point → Outcome Bool
  check_parsed msg none key = err (wrap "parse signature" driver)
  check_parsed msg (some sig) none = err (wrap "parse pub key" driver)
  check_parsed msg (some sig) (some key) = ok (C.check sig (C.sum256 msg) key)

  unfoldable pub verify_ecdsa_signature : Signature → List ℕ → PublicKey → Outcome Bool
  verify_ecdsa_signature sig msg key =
      present sig msg key
        (check_parsed msg (C.parse_der_signature sig.bytes) (C.parse_pub_key key.bytes))

  unfoldable pub verify_ed25519_signature : Signature → List ℕ → PublicKey → Outcome Bool
  verify_ed25519_signature sig msg key =
      if not (length key.bytes == 32)
      then err (message "invalid Ed25519 public key length")
      else (if not (length sig.bytes == 64)
          then err (message "invalid Ed25519 signature length")
          else ok (C.ed25519_verify key.bytes msg sig.bytes))

  abbrev with_point : Option C.Point → Outcome Bool → Outcome Bool
  with_point none rest = err (wrap "failed to parse secp256k1 public key" driver)
  with_point (some _) rest = rest

  unfoldable pub verify_secp256k1_schnorr : Signature → List ℕ → PublicKey → Outcome Bool
  verify_secp256k1_schnorr sig msg key =
      if not (length sig.bytes == 64)
      then err (message "invalid secp256k1 Schnorr signature length")
      else with_point (C.parse_pub_key key.bytes) (verify_ecdsa_signature sig msg key)

  -- The curve is Ed25519, unless it is secp256k1.
  unfoldable pub verify_schnorr_signature : Bool → Signature → List ℕ → PublicKey → Outcome Bool
  verify_schnorr_signature is_secp256k1 sig msg key = present sig msg key (
      if is_secp256k1
      then verify_secp256k1_schnorr sig msg key
      else verify_ed25519_signature sig msg key)

  -- By the length of the key, or else by the curve of the engine.
  abbrev on_secp256k1 : String → PublicKey → Bool
  on_secp256k1 curve key =
      if length key.bytes == 32
      then false
      else (if (length key.bytes == 33) || (length key.bytes == 65)
          then true
          else lower_eq curve "secp256k1")

  -- FROSTProtocol.VerifySignature
  unfoldable pub verify_frost : String → Signature → List ℕ → PublicKey → Outcome Bool
  verify_frost curve sig msg key = verify_schnorr_signature (on_secp256k1 curve key) sig msg key

  ecdsa_bytes :
      (sig : Signature) (msg : List ℕ) (key : PublicKey)
      → key.bytes ≡ []
      → verify_ecdsa_signature sig msg key ≢ ok true
  unfolding verify_ecdsa_signature
  ecdsa_bytes sig msg key empty valid = ground arith

  frost_bytes :
      (curve : String) (sig : Signature) (msg : List ℕ) (key : PublicKey)
      → key.bytes ≡ []
      → verify_frost curve sig msg key ≢ ok true
  unfolding verify_frost verify_schnorr_signature
  frost_bytes curve sig msg key empty valid = ground arith

  -- An engine that verifies as GG18, GG20 or FROST does.
  abbrev pub IsVerifier : {R : Redis} → Engine R → Type 0
  IsVerifier e =
      ((sig : Signature) (msg : List ℕ) (key : PublicKey)
        → e.verify_signature sig msg key ≡ verify_ecdsa_signature sig msg key)
      ⊎ ((curve : String) × ((sig : Signature) (msg : List ℕ) (key : PublicKey)
            → e.verify_signature sig msg key ≡ verify_frost curve sig msg key))

  rejects_no_bytes :
      {R : Redis} (e : Engine R) (sig : Signature) (msg : List ℕ) (key : PublicKey)
      → IsVerifier e
      → key.bytes ≡ []
      → e.verify_signature sig msg key ≢ ok true
  rejects_no_bytes e sig msg key (inl ecdsa) empty valid =
      ecdsa_bytes sig msg key empty (sym (ecdsa sig msg key) ∙ valid)
  rejects_no_bytes e sig msg key (inr (curve, frost)) empty valid =
      frost_bytes curve sig msg key empty (sym (frost sig msg key) ∙ valid)

  -- With an engine that verifies as GG18, GG20 or FROST does, and whatever signatures it makes,
  -- ThresholdSigner.Sign never returns a signature: the public key that it has the signature
  -- verified with has no bytes, which each of them refuses.
  pub sign_never :
      {R : Redis} (e : Engine R) (m : Manager) (uuid : String) (req : SignRequest) (w : World R)
      → IsVerifier e
      → (r : SignResponse) → (sign e m uuid req w).0 ≢ ok r
  sign_never e m uuid req w verifier r done =
      let (k, msg, sig, _, _, valid, _, _) = sign-ok e m uuid req w {r = r} done in
      rejects_no_bytes e sig msg (hex_key k) verifier refl valid
