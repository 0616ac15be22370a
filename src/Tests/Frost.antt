-- ===== src/Tests/Frost.antt =====
-- protocol/frost.go: a key generation and a signing of FROST.
use go_mpc_wallet.Base.{
  ℕ, zero, suc, ◌≡◌, refl, true, List, [], ◌∷◌, some, length, ◌==◌, if◌then◌else◌, lookup, insert,
  arith,
}
use go_mpc_wallet.Storage.World.{Outcome, ok, err, message}
use go_mpc_wallet.Signing.Signer.{EngineRequest}
use go_mpc_wallet.Protocol.Types.{KeyGenRequest}
use go_mpc_wallet.Protocol.Requests.{
  validate_frost, validate_sign_request, normalize_node_ids, resolve_message_payload,
}
use go_mpc_wallet.Signing.Protocol.{lower_eq}
use go_mpc_wallet.Protocol.Gg18.{SignReply}
use go_mpc_wallet.Protocol.Run.{returns}
use go_mpc_wallet.Protocol.Verify.{Curves, verify_frost}
use go_mpc_wallet.Protocol.Frost.{
  EdTss, key_at, signature_of, convert_frost_key_data, convert_frost_signature, save_frost_record,
  persist_frost, generate_frost, sign_frost_with, threshold_sign_frost,
}
use go_mpc_wallet.Protocol.Judged.{FrostOp, generates, performed, threshold_sign_frost-judged}

unfoldable ones : ℕ → List ℕ
ones zero = []
ones (suc n) = 1 ∷ ones n

length-ones : (n : ℕ) → length (ones n) ≡ n
unfolding ones
length-ones zero = refl
length-ones (suc n) = omega (arith, length-ones n)

abbrev standard_of : List ℕ → Outcome (List ℕ)
standard_of raw = if length raw == 64 then ok raw else err (message "invalid signature length")

standard_of-ok : (raw : List ℕ) {sig : List ℕ} → standard_of raw ≡ ok sig → length sig ≡ 64
standard_of-ok raw done = ground arith

-- A tss-lib whose key and signature are always the same.
abbrev tss : EdTss
tss = record {
  T = List ℕ;
  Save = ℕ;
  public_point = λ d. some (d, 8);
  standard_key = λ x y. x ∷ ones 31;
  length-standard_key = λ x y. omega (arith, length-ones 31);
  standard_signature = standard_of;
  length-standard_signature = standard_of-ok;
  execute_keygen = λ key ids threshold this t. (ok 5, t);
  execute_signing = λ session key msg ids this d options t. (ok (some (ones 64)), t);
  encode = λ d. ok (d ∷ []);
  decode = λ bytes. ok (length bytes);
  keep_key_data = λ id this bytes t. (ok tt, bytes);
  read_key_data = λ id this t. (ok t, t);
}

abbrev curves : Curves
curves = record {
  Parsed = List ℕ;
  Point = List ℕ;
  sum256 = λ msg. msg;
  parse_der_signature = λ b. some b;
  parse_pub_key = λ b. some b;
  check = λ sig msg key. true;
  ed25519_verify = λ key msg sig. length msg == 1;
}

abbrev request : KeyGenRequest
request = record {
  key_id = "k";
  algorithm = "EdDSA";
  curve = "ed25519";
  threshold = 2;
  total_nodes = 2;
  node_ids = "a" ∷ "b" ∷ [];
}

abbrev asked : EngineRequest
asked = record { key_id = "k"; message = 7 ∷ []; message_hex = ""; node_ids = "a" ∷ "b" ∷ [] }

abbrev ops : List FrostOp
ops = generates true "a" 9 request ∷ []

abbrev reply : SignReply
reply = record { signature = signature_of (ones 64); public_key = key_at tss (5, 8) }

signs_ok :
    (threshold_sign_frost {E = tss} true "ed25519" "a" "s" asked
      (performed ops (record { key_records = []; below = [] }))).0
    ≡ returns reply
unfolding threshold_sign_frost sign_frost_with generate_frost performed validate_frost
    validate_sign_request normalize_node_ids convert_frost_key_data convert_frost_signature
    save_frost_record persist_frost resolve_message_payload ones lookup insert lower_eq
signs_ok = refl

threshold_sign_frost-judged_example :
    verify_frost curves "secp256k1" reply.signature (7 ∷ []) reply.public_key ≡ ok true
threshold_sign_frost-judged_example =
    threshold_sign_frost-judged tss curves ops [] true "ed25519" "a" "s" asked signs_ok "secp256k1"
      (7 ∷ []) (omega arith)
