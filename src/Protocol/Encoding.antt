-- ===== src/Protocol/Encoding.antt =====
-- protocol/tss_adapter.go, convertTSSKeyData, convertTSSSignature, buildDERSignature and
-- padScalarBytes: how what tss-lib returns becomes bytes. A coordinate or a share is written with at
-- most 64 bytes, more than the curve's 32.
use go_mpc_wallet.Base.{
  ℕ, ◌+◌, ◌-◌, ◌%◌, List, ◌∷◌, ◌++◌, length, ltb, leb, ◌==◌, if◌then◌else◌, drop, String, Option,
  none, some, ◌+++◌,
}
use Prim.Native.Nat.{◌^◌}
use go_mpc_wallet.Base.Hex.{encode_to_string}
use go_mpc_wallet.Storage.World.{Outcome, ok, err, message}
use go_mpc_wallet.Signing.Types.{Signature, PublicKey}
use go_mpc_wallet.Protocol.Bytes.{int_bytes, zeros}

-- `protocol.KeyShare`
pub record KeyShare : Type 0 where
  pub share_id : String
  pub node_id : String
  pub share : List ℕ
  pub index : ℕ

-- What the code reads of `keygen.LocalPartySaveData`: the public point, if it is one, the share of
-- the private key, and the identifier of the share.
pub record SaveData : Type 0 where
  pub public_point : Option (ℕ × ℕ)
  pub xi : ℕ
  pub share_number : ℕ

-- What the code reads of `common.SignatureData`.
pub record SignatureData : Type 0 where
  pub r_bytes : List ℕ
  pub s_bytes : List ℕ

unfoldable pub pad_scalar_bytes : List ℕ → List ℕ
pad_scalar_bytes src =
    if leb 32 (length src) then drop (length src - 32) src else zeros (32 - length src) ++ src

-- `byte(n)` keeps the lowest eight bits.
unfoldable pub build_der_signature : List ℕ → List ℕ → List ℕ
build_der_signature r s =
    0x30
    ∷ ((length r + length s + 4) % 256)
    ∷ 0x02
    ∷ (length r % 256)
    ∷ (r ++ (0x02 ∷ (length s % 256) ∷ s))

unfoldable pub convert_tss_signature : Option SignatureData → Outcome Signature
convert_tss_signature none = err (message "signature data is nil")
convert_tss_signature (some d) =
    let r = pad_scalar_bytes d.r_bytes in
    let s = pad_scalar_bytes d.s_bytes in
    let der = build_der_signature r s in
    ok (record { bytes = der; hex = encode_to_string der; r = r; s = s })

-- The public key in its compressed form: the parity of Y, then X with zeros in front up to 32 bytes.
unfoldable pub compressed_key : ℕ → ℕ → List ℕ
compressed_key x y =
    let raw = int_bytes 64 x in
    let parity = if y % 2 == 0 then 0x02 else 0x03 in
    if ltb (length raw) 32 then parity ∷ (zeros (32 - length raw) ++ raw) else parity ∷ raw

abbrev pub public_key_of : List ℕ → PublicKey
public_key_of key = record { bytes = key; hex = encode_to_string key }

-- `copy(padded[32-len(xi):], xi)`, which panics, here `none`, when `xi` has more than 32 bytes.
unfoldable pub padded_share : ℕ → Option (List ℕ)
padded_share xi =
    let raw = int_bytes 64 xi in
    if leb (length raw) 32 then some (zeros (32 - length raw) ++ raw) else none

-- `int(ShareID.Int64())`, with 1 in place of a negative number.
unfoldable pub share_index : ℕ → ℕ
share_index n = let low = n % 2 ^ 64 in if leb (2 ^ 63) low then 1 else low

abbrev pub key_share : String → String → SaveData → List ℕ → KeyShare
key_share key_id this_node d padded = record {
  share_id = ◌+++◌ key_id (◌+++◌ "-" this_node);
  node_id = this_node;
  share = padded;
  index = share_index d.share_number;
}

abbrev pub with_share :
    String → String → SaveData → List ℕ → Option (List ℕ) → Option (Outcome (KeyShare × PublicKey))
with_share key_id this_node d key none = none
with_share key_id this_node d key (some padded) =
    some (ok (key_share key_id this_node d padded, public_key_of key))

-- `none` is a panic: of a point that is nil, which ToECDSAPubKey reads, or of a share that is too long.
unfoldable pub convert_tss_key_data :
    String → SaveData → String → Option (Outcome (KeyShare × PublicKey))
convert_tss_key_data key_id d this_node = elim d.public_point [
  | none ↦ none
  | some (x, y) ↦ with_share key_id this_node d (compressed_key x y) (padded_share d.xi)
]
