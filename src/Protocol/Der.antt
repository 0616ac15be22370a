-- ===== src/Protocol/Der.antt =====
-- protocol/tss_adapter.go, buildDERSignature: what a reader of the DER encoding finds in it.
use go_mpc_wallet.Base.{
  ℕ, zero, suc, ◌+◌, ◌%◌, ◌<◌, ◌≡◌, refl, List, [], ◌∷◌, ◌++◌, length, ltb, leb, ◌==◌,
  if◌then◌else◌, drop, take, length-append, arith, Option, none, some, ◌&&◌,
}
use Prim.Native.Nat.{◌^◌}
use go_mpc_wallet.Base.{◌↔◌, ◌≢◌}
use go_mpc_wallet.Base.Int.{ℤ, pos, sub_ℕ}
use go_mpc_wallet.Protocol.Bytes.{set_bytes}
use go_mpc_wallet.Protocol.Encoding.{build_der_signature}

-- One INTEGER at the front of the bytes, with a length of one byte, and what follows it.
unfoldable pub read_integer : List ℕ → Option (List ℕ × List ℕ)
read_integer [] = none
read_integer (tag ∷ []) = none
read_integer (tag ∷ n ∷ rest) =
    if tag == 0x02 && (ltb n 128 && leb n (length rest))
    then some (take n rest, drop n rest)
    else none

-- The second INTEGER, with nothing after it.
abbrev read_last : List ℕ → Option (List ℕ × List ℕ) → Option (List ℕ × List ℕ)
read_last r none = none
read_last r (some (s, [])) = some (r, s)
read_last r (some (s, (_ ∷ _))) = none

abbrev read_second : Option (List ℕ × List ℕ) → Option (List ℕ × List ℕ)
read_second none = none
read_second (some (r, rest)) = read_last r (read_integer rest)

-- A SEQUENCE of two INTEGERs, and nothing else.
unfoldable pub read_der : List ℕ → Option (List ℕ × List ℕ)
read_der [] = none
read_der (tag ∷ []) = none
read_der (tag ∷ n ∷ rest) =
    if tag == 0x30 && (ltb n 128 && (n == length rest))
    then read_second (read_integer rest)
    else none

take-append : (xs ys : List ℕ) → take (length xs) (xs ++ ys) ≡ xs
take-append [] ys = refl
take-append (x ∷ xs) ys = ground (arith, take-append xs ys)

drop-append : (xs ys : List ℕ) → drop (length xs) (xs ++ ys) ≡ ys
drop-append [] ys = refl
drop-append (x ∷ xs) ys = drop-append xs ys

take_all : (xs : List ℕ) → take (length xs) xs ≡ xs
take_all [] = refl
take_all (x ∷ xs) = ground (arith, take_all xs)

drop_all : (xs : List ℕ) → drop (length xs) xs ≡ []
drop_all [] = refl
drop_all (x ∷ xs) = drop_all xs

read_integer-append :
    (xs ys : List ℕ)
    → length xs < 128
    → read_integer (0x02 ∷ (length xs % 256) ∷ (xs ++ ys)) ≡ some (xs, ys)
unfolding read_integer
read_integer-append xs ys short =
    ground (arith, length-append xs ys, take-append xs ys, drop-append xs ys)

read_integer-end :
    (xs : List ℕ) → length xs < 128 → read_integer (0x02 ∷ (length xs % 256) ∷ xs) ≡ some (xs, [])
unfolding read_integer
read_integer-end xs short = ground (arith, take_all xs, drop_all xs)

pub read-build_der :
    (r s : List ℕ)
    → length r + length s + 4 < 128
    → read_der (build_der_signature r s) ≡ some (r, s)
unfolding read_der build_der_signature
read-build_der r s short = ground (
  arith,
  length-append r (0x02 ∷ (length s % 256) ∷ s),
  read_integer-append r (0x02 ∷ (length s % 256) ∷ s),
  read_integer-end s,
)

abbrev pub leads : List ℕ → ℕ
leads [] = 0
leads (b ∷ _) = b

-- The value of an INTEGER: in two's complement, negative where the first byte is 128 or more.
unfoldable pub integer_value : List ℕ → ℤ
integer_value bs =
    if leb 128 (leads bs) then sub_ℕ (set_bytes 0 bs) (256 ^ length bs) else pos (set_bytes 0 bs)

power_positive : (n : ℕ) → 0 < 256 ^ n
power_positive zero = omega arith
power_positive (suc n) = omega (arith, power_positive n)

moved : (n m : ℕ) → 0 < m → sub_ℕ n m ≢ pos n
moved n m positive same = ground arith

integer_value-leads : (bs : List ℕ) → (integer_value bs ≡ pos (set_bytes 0 bs)) ↔ (leads bs < 128)
unfolding integer_value
integer_value-leads bs = (
  λ same. ground (arith, moved (set_bytes 0 bs) (256 ^ length bs) (power_positive (length bs))),
  λ low. ground arith,
)

-- Where two scalars are short enough for DER lengths of one byte: the number that a reader of the
-- encoding finds first is the first scalar just when that scalar starts with a byte below 128;
-- otherwise it is another number.
pub build_der-value :
    (r s : List ℕ)
    → length r + length s + 4 < 128
    → (r' s' : List ℕ) → read_der (build_der_signature r s) ≡ some (r', s')
    → (integer_value r' ≡ pos (set_bytes 0 r)) ↔ (leads r < 128)
build_der-value r s short r' s' found =
    ground (arith, read-build_der r s short, integer_value-leads r)
