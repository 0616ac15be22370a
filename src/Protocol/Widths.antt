-- ===== src/Protocol/Widths.antt =====
-- protocol/tss_adapter.go: the widths of what the conversions write, and what can be read back.
use go_mpc_wallet.Base.{
  ap, sym, ◌∙◌, inl, inr, leb, Bool-cases, ℕ, zero, suc, ◌+◌, ◌*◌, ◌-◌, ◌%◌, ◌≤◌, ◌<◌, ◌≡◌, refl,
  List, [], ◌∷◌, ◌++◌, length, ◌==◌, if◌then◌else◌, drop, take, length-append, arith, String, some,
}
use Prim.Native.Nat.{◌^◌}
use go_mpc_wallet.Storage.World.{ok}
use go_mpc_wallet.Signing.Types.{Signature, PublicKey}
use go_mpc_wallet.Base.Hex.{encode_to_string}
use go_mpc_wallet.Protocol.Der.{read_der, read-build_der}
use go_mpc_wallet.Protocol.Bytes.{
  IsBytes, IsBytes-append, int_bytes, zeros, set_bytes, length-zeros, set_bytes-append,
  set_bytes-zeros, zeros-IsBytes, int_bytes-IsBytes, length-int_bytes, set_bytes-int_bytes,
}
use go_mpc_wallet.Protocol.Encoding.{
  SignatureData, SaveData, KeyShare, pad_scalar_bytes, build_der_signature, convert_tss_signature,
  compressed_key, padded_share, share_index, key_share, public_key_of, convert_tss_key_data,
}

length-drop : (n : ℕ) (xs : List ℕ) → length (drop n xs) ≡ length xs - n
length-drop zero xs = omega arith
length-drop (suc n) [] = omega arith
length-drop (suc n) (x ∷ xs) = omega (arith, length-drop n xs)

drop-IsBytes : (n : ℕ) (xs : List ℕ) → IsBytes xs → IsBytes (drop n xs)
unfolding IsBytes
drop-IsBytes zero xs bytes = bytes
drop-IsBytes (suc n) [] bytes = tt
drop-IsBytes (suc n) (x ∷ xs) (low, bytes) = drop-IsBytes n xs bytes

length-pad_scalar : (src : List ℕ) → length (pad_scalar_bytes src) ≡ 32
unfolding pad_scalar_bytes
length-pad_scalar src = ground (
  arith,
  length-drop (length src - 32) src,
  length-append (zeros (32 - length src)) src,
  length-zeros (32 - length src),
)

pad_scalar-IsBytes : (src : List ℕ) → IsBytes src → IsBytes (pad_scalar_bytes src)
unfolding pad_scalar_bytes
pad_scalar-IsBytes src bytes = ground (
  arith,
  drop-IsBytes (length src - 32) src bytes,
  IsBytes-append (zeros (32 - length src)) src (zeros-IsBytes (32 - length src)) bytes,
)

length-build_der :
    (r s : List ℕ) → length r ≡ 32 → length s ≡ 32 → length (build_der_signature r s) ≡ 70
unfolding build_der_signature
length-build_der r s r_width s_width = omega (arith, length-append r (0x02 ∷ (length s % 256) ∷ s))

build_der-IsBytes : (r s : List ℕ) → IsBytes r → IsBytes s → IsBytes (build_der_signature r s)
unfolding build_der_signature IsBytes
build_der-IsBytes r s left right = (omega arith, (omega arith, (omega arith, (omega arith, tail))))
  where
    tail : IsBytes (r ++ (0x02 ∷ (length s % 256) ∷ s))
    tail = IsBytes-append r (0x02 ∷ (length s % 256) ∷ s) left (omega arith, (omega arith, right))

set_bytes-padded : (n : ℕ) (xs : List ℕ) → set_bytes 0 (zeros n ++ xs) ≡ set_bytes 0 xs
set_bytes-padded n xs = ground (arith, set_bytes-append 0 (zeros n) xs, set_bytes-zeros n)

-- Any bytes padded to a scalar are 32, and stand for the same number where they are at most 32.
pub pad_scalar-set_bytes :
    (src : List ℕ)
    → (length (pad_scalar_bytes src) ≡ 32)
      × (length src ≤ 32 → set_bytes 0 (pad_scalar_bytes src) ≡ set_bytes 0 src)
unfolding pad_scalar_bytes
pad_scalar-set_bytes src =
    (length-pad_scalar src, λ few. ground (arith, set_bytes-padded (32 - length src) src))

padded-width : (xs : List ℕ) → length xs ≤ 32 → length (zeros (32 - length xs) ++ xs) ≡ 32
padded-width xs few =
    omega (arith, length-append (zeros (32 - length xs)) xs, length-zeros (32 - length xs))

padded-IsBytes : (n : ℕ) (xs : List ℕ) → IsBytes xs → IsBytes (zeros n ++ xs)
padded-IsBytes n xs bytes = IsBytes-append (zeros n) xs (zeros-IsBytes n) bytes

-- What `Int.Bytes` gives of a number below 256 ^ 32.
coordinate :
    (x : ℕ)
    → x < 256 ^ 32
    → (length (int_bytes 64 x) ≤ 32) × IsBytes (int_bytes 64 x) × (set_bytes 0 (int_bytes 64 x) ≡ x)
coordinate x small =
    (length-int_bytes 64 32 x small, int_bytes-IsBytes 64 x, set_bytes-int_bytes 64 x (omega arith))

parity_byte : (y : ℕ) → (if y % 2 == 0 then 0x02 else 0x03) ≡ 2 + y % 2
parity_byte y = ground arith

-- Of a curve point whose X has at most 32 bytes, the compressed key has 33 bytes, of which the first is 2
-- or 3 as Y is even or odd, and the others stand for X.
pub compressed_key-width :
    (x y : ℕ)
    → x < 256 ^ 32
    → (length (compressed_key x y) ≡ 33)
      × IsBytes (compressed_key x y)
      × (take 1 (compressed_key x y) ≡ (2 + y % 2) ∷ [])
      × (set_bytes 0 (drop 1 (compressed_key x y)) ≡ x)
unfolding compressed_key IsBytes
compressed_key-width x y small =
    let (few, bytes, number) = coordinate x small in
    ground (
      arith,
      padded-width (int_bytes 64 x),
      padded-IsBytes (32 - length (int_bytes 64 x)) (int_bytes 64 x) bytes,
      set_bytes-padded (32 - length (int_bytes 64 x)) (int_bytes 64 x),
      parity_byte y,
    )

padded_share-ok :
    (xi : ℕ)
    → xi < 256 ^ 32
    → (share : List ℕ) × (padded_share xi ≡ some share)
      × (length share ≡ 32)
      × IsBytes share
      × (set_bytes 0 share ≡ xi)
unfolding padded_share
padded_share-ok xi small =
    let raw = int_bytes 64 xi in
    let (few, bytes, number) = coordinate xi small in
    (
      zeros (32 - length raw) ++ raw,
      ground arith,
      padded-width raw few,
      padded-IsBytes (32 - length raw) raw bytes,
      ground (arith, set_bytes-padded (32 - length raw) raw),
    )

share_index-bounds : (n : ℕ) → share_index n < 2 ^ 63
unfolding share_index
share_index-bounds n = ground arith

-- From what tss-lib saves, of a point whose X and a share that are below 256 ^ 32, the conversion
-- neither panics nor fails. It gives this node's share: 32 bytes that stand for the share, and an
-- index below 2 ^ 63; and the compressed key of the point.
pub convert_tss_key_data-ok :
    (key_id this_node : String) (d : SaveData) (x y : ℕ)
    → d.public_point ≡ some (x, y)
    → x < 256 ^ 32
    → d.xi < 256 ^ 32
    → (s : KeyShare) × (k : PublicKey) × (convert_tss_key_data key_id d this_node
        ≡ some (ok (s, k)))
      × (s.node_id ≡ this_node)
      × (length s.share ≡ 32)
      × (set_bytes 0 s.share ≡ d.xi)
      × (s.index < 2 ^ 63)
      × (k.bytes ≡ compressed_key x y)
unfolding convert_tss_key_data
convert_tss_key_data-ok key_id this_node d x y point small low =
    let (padded, made, width, bytes, number) = padded_share-ok d.xi low in
    (
      key_share key_id this_node d padded,
      public_key_of (compressed_key x y),
      ground arith,
      refl,
      width,
      number,
      share_index-bounds d.share_number,
      refl,
    )

take-drop : (n : ℕ) (xs : List ℕ) → take n xs ++ drop n xs ≡ xs
take-drop zero xs = refl
take-drop (suc n) [] = refl
take-drop (suc n) (x ∷ xs) = ap (λ t. x ∷ t) (take-drop n xs)

shifted : (a b p : ℕ) → (a * 256 + b) * p ≡ a * (256 * p) + b * p
shifted a b p = omega arith

next_power : (n : ℕ) → 256 ^ suc n ≡ 256 * 256 ^ n
next_power n = omega arith

set_bytes-from : (acc : ℕ) (xs : List ℕ) → set_bytes acc xs ≡ acc * 256 ^ length xs + set_bytes 0 xs
unfolding set_bytes
set_bytes-from acc [] = omega arith
set_bytes-from acc (b ∷ xs) = omega (
  arith,
  set_bytes-from (acc * 256 + b) xs,
  set_bytes-from (0 + b) xs,
  shifted acc b (256 ^ length xs),
  ap (λ p. acc * p) (next_power (length xs)),
)

tail_number :
    (n : ℕ) (xs : List ℕ)
    → set_bytes 0 xs ≡ set_bytes 0 (take n xs) * 256 ^ length (drop n xs) + set_bytes 0 (drop n xs)
tail_number n xs =
    ap (set_bytes 0) (sym (take-drop n xs))
    ∙ (set_bytes-append 0 (take n xs) (drop n xs)
        ∙ set_bytes-from (set_bytes 0 (take n xs)) (drop n xs))

-- Padding keeps the number of the bytes, but for what stands in front of the last 32.
pad_scalar-number :
    (src : List ℕ) → (q : ℕ) × (set_bytes 0 src ≡ q * 256 ^ 32 + set_bytes 0 (pad_scalar_bytes src))
unfolding pad_scalar_bytes
pad_scalar-number src = elim (Bool-cases (leb 32 (length src))) [
  | inr few ↦ (0, ground (arith, set_bytes-padded (32 - length src) src))
  | inl long ↦ (
    set_bytes 0 (take (length src - 32) src),
    ground (arith, tail_number (length src - 32) src, length-drop (length src - 32) src),
  )
]

-- A signature of tss-lib, with bytes in R and S of any length, is converted to scalars of 32 bytes
-- each, and to 70 bytes of DER in which a reader finds the two scalars.
pub convert_tss_signature-read :
    (d : SignatureData)
    → IsBytes d.r_bytes
    → IsBytes d.s_bytes
    → (sig : Signature) × (convert_tss_signature (some d) ≡ ok sig)
      × (length sig.r ≡ 32)
      × (length sig.s ≡ 32)
      × (length sig.bytes ≡ 70)
      × IsBytes sig.bytes
      × (read_der sig.bytes ≡ some (sig.r, sig.s))
      × ((q : ℕ) × (set_bytes 0 d.r_bytes ≡ q * 256 ^ 32 + set_bytes 0 sig.r))
      × ((q : ℕ) × (set_bytes 0 d.s_bytes ≡ q * 256 ^ 32 + set_bytes 0 sig.s))
unfolding convert_tss_signature
convert_tss_signature-read d r_IsBytes s_IsBytes =
    let r = pad_scalar_bytes d.r_bytes in
    let s = pad_scalar_bytes d.s_bytes in
    let r_width = length-pad_scalar d.r_bytes in
    let s_width = length-pad_scalar d.s_bytes in
    (
      record {
        bytes = build_der_signature r s;
        hex = encode_to_string (build_der_signature r s);
        r = r;
        s = s;
      },
      refl,
      r_width,
      s_width,
      length-build_der r s r_width s_width,
      build_der-IsBytes r s (pad_scalar-IsBytes d.r_bytes r_IsBytes)
          (pad_scalar-IsBytes d.s_bytes s_IsBytes),
      read-build_der r s (omega (arith, r_width, s_width)),
      pad_scalar-number d.r_bytes,
      pad_scalar-number d.s_bytes,
    )
