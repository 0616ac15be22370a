-- ===== src/Protocol/Bytes.antt =====
-- math/big as the engines use it: `Int.Bytes`, the bytes of a number with the highest first and no
-- zero in front, and `Int.SetBytes`, the number of such bytes; and bytes brought to a width.
use go_mpc_wallet.Base.{
  ℕ, zero, suc, ◌+◌, ◌*◌, ◌/◌, ◌%◌, ◌≤◌, ◌<◌, ◌≡◌, refl, List, [], ◌∷◌, ◌++◌, length, ◌==◌,
  if◌then◌else◌, length-append, arith,
}
use Prim.Native.Nat.{◌^◌}

-- A list of bytes: each is below 256.
unfoldable pub IsBytes : List ℕ → Type 0
IsBytes [] = Unit
IsBytes (b ∷ bs) = (b < 256) × IsBytes bs

pub IsBytes-append : (xs ys : List ℕ) → IsBytes xs → IsBytes ys → IsBytes (xs ++ ys)
unfolding IsBytes
IsBytes-append [] ys left right = right
IsBytes-append (b ∷ xs) ys (low, left) right = (low, IsBytes-append xs ys left right)

-- `Int.Bytes` of a number of at most `w` bytes.
unfoldable pub int_bytes : ℕ → ℕ → List ℕ
int_bytes zero n = []
int_bytes (suc w) n =
    let high = int_bytes w (n / 256) in if n == 0 then [] else high ++ (n % 256 ∷ [])

-- `Int.SetBytes`, from the number `acc` that stands in front.
unfoldable pub set_bytes : ℕ → List ℕ → ℕ
set_bytes acc [] = acc
set_bytes acc (b ∷ bs) = set_bytes (acc * 256 + b) bs

-- `make([]byte, n)`
unfoldable pub zeros : ℕ → List ℕ
zeros zero = []
zeros (suc n) = 0 ∷ zeros n

pub set_bytes-append :
    (acc : ℕ) (xs ys : List ℕ) → set_bytes acc (xs ++ ys) ≡ set_bytes (set_bytes acc xs) ys
unfolding set_bytes
set_bytes-append acc [] ys = refl
set_bytes-append acc (b ∷ xs) ys = set_bytes-append (acc * 256 + b) xs ys

pub set_bytes-zeros : (n : ℕ) → set_bytes 0 (zeros n) ≡ 0
unfolding set_bytes zeros
set_bytes-zeros zero = refl
set_bytes-zeros (suc n) = set_bytes-zeros n

pub length-zeros : (n : ℕ) → length (zeros n) ≡ n
unfolding zeros
length-zeros zero = refl
length-zeros (suc n) = omega (arith, length-zeros n)

pub zeros-IsBytes : (n : ℕ) → IsBytes (zeros n)
unfolding IsBytes zeros
zeros-IsBytes zero = tt
zeros-IsBytes (suc n) = (omega arith, zeros-IsBytes n)

pub int_bytes-IsBytes : (w n : ℕ) → IsBytes (int_bytes w n)
unfolding IsBytes int_bytes
int_bytes-IsBytes zero n = tt
int_bytes-IsBytes (suc w) n =
    ground
      (arith, IsBytes-append (int_bytes w (n / 256)) (n % 256 ∷ []) (int_bytes-IsBytes w (n / 256)))

quotient_bound : (k n : ℕ) → n < 256 ^ suc k → n / 256 < 256 ^ k
quotient_bound k n small = omega arith

pub length-int_bytes : (w k n : ℕ) → n < 256 ^ k → length (int_bytes w n) ≤ k
unfolding int_bytes
length-int_bytes zero k n small = omega arith
length-int_bytes (suc w) zero n small = ground arith
length-int_bytes (suc w) (suc k) n small = ground (
  arith,
  length-append (int_bytes w (n / 256)) (n % 256 ∷ []),
  length-int_bytes w k (n / 256) (quotient_bound k n small),
)

pub set_bytes-int_bytes : (w n : ℕ) → n < 256 ^ w → set_bytes 0 (int_bytes w n) ≡ n
unfolding int_bytes set_bytes
set_bytes-int_bytes zero n small = omega arith
set_bytes-int_bytes (suc w) n small = ground (
  arith,
  set_bytes-append 0 (int_bytes w (n / 256)) (n % 256 ∷ []),
  set_bytes-int_bytes w (n / 256) (quotient_bound w n small),
)
