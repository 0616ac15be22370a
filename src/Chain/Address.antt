-- ===== src/Chain/Address.antt =====
-- internal/mpc/chain/ethereum.go and bitcoin.go, GenerateAddress. The hashes and the Base58 alphabet
-- are third-party packages, and parameters.
use go_mpc_wallet.Base.{
  ℕ, ◌-◌, ◌<◌, ◌≡◌, ◌↔◌, String, ◌&&◌, List, [], ◌∷◌, ◌++◌, Option, none, some, length, take, drop,
  ltb, ◌==◌, if◌then◌else◌, ◌+++◌, arith,
}
use Prim.Native.Nat.{◌^◌}
use go_mpc_wallet.Base.Hex.{encode_to_string}
use go_mpc_wallet.Storage.World.{Outcome, ok, err, message}
use go_mpc_wallet.Protocol.Encoding.{compressed_key}
use go_mpc_wallet.Protocol.Widths.{compressed_key-width}

pub record Hashes : Type 0 where
  pub keccak256 : List ℕ → List ℕ
  pub sum256 : List ℕ → List ℕ
  pub ripemd160 : List ℕ → List ℕ
  pub base58 : List ℕ → String

abbrev head_or_zero : List ℕ → ℕ
head_or_zero [] = 0
head_or_zero (b ∷ _) = b

module _ (H : Hashes) where
  -- The bytes that are hashed: without the leading 4 of an uncompressed key.
  abbrev uncompressed : List ℕ → List ℕ
  uncompressed key = if (head_or_zero key == 4) && (length key == 65) then drop 1 key else key

  -- The last 64 bytes of the key; with fewer the slice panics, here `none`.
  unfoldable pub ethereum_address : List ℕ → Option (Outcome String)
  ethereum_address key =
      if length key == 0
      then some (err (message "public key is required"))
      else (if ltb (length (uncompressed key)) 64
          then none
          else some (
              ok (
                ◌+++◌ "0x" (
                  encode_to_string (
                    drop 12
                      (H.keccak256 (drop (length (uncompressed key) - 64) (uncompressed key))))))))

  unfoldable pub bitcoin_address : ℕ → List ℕ → Outcome String
  bitcoin_address version key =
      if length key == 0
      then err (message "public key is required")
      else (let payload = version ∷ H.ripemd160 (H.sum256 key) in
          ok (H.base58 (payload ++ take 4 (H.sum256 (H.sum256 payload)))))

  -- The Ethereum adapter panics on a key just when the key has from 1 to 63 bytes.
  pub ethereum-short :
      (key : List ℕ) → (ethereum_address key ≡ none) ↔ ((0 < length key) × (length key < 64))
  unfolding ethereum_address
  ethereum-short [] = (λ panicked. ground arith, λ short. ground arith)
  ethereum-short (b ∷ bs) = (λ panicked. ground arith, λ short. ground arith)

  -- For the key of any point whose X has at most 32 bytes, compressed as the engines write it, the
  -- Ethereum adapter gives no address and no error: it panics.
  pub ethereum-compressed : (x y : ℕ) → x < 256 ^ 32 → ethereum_address (compressed_key x y) ≡ none
  ethereum-compressed x y small =
      let (width, _, _, _) = compressed_key-width x y small in
      (ethereum-short (compressed_key x y)).1 (omega arith, omega arith)
