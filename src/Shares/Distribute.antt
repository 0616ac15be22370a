-- ===== src/Shares/Distribute.antt =====
-- key/dkg.go, DistributeKeyShares and RecoverKeyShare, over the encrypted files. The map of shares is
-- read in the order of a list, whatever it is. The nonce and the failures of each call are arguments.
use go_mpc_wallet.Base.{
  true, Dict, lookup, none, ◌≡◌, ℕ, zero, suc, String, List, [], ◌∷◌, length, ltb, if◌then◌else◌,
  ◌+++◌,
}
use go_mpc_wallet.Storage.World.{Outcome, ok, err, message, wrap}
use go_mpc_wallet.Shares.Files.{
  is_plain, share_file, Aead, Disk, Faults, store_key_share, get_key_share,
}

-- The keys of a map are different from each other.
unfoldable pub HasDistinctKeys : Dict (List ℕ) → Type 0
HasDistinctKeys [] = Unit {0}
HasDistinctKeys ((k, v) ∷ rest) = (lookup k rest ≡ none) × HasDistinctKeys rest

-- Of each node of the map, the name of its file is an element of a path.
unfoldable pub HasPlainFiles : Dict (List ℕ) → Type 0
HasPlainFiles [] = Unit {0}
HasPlainFiles ((k, v) ∷ rest) = (is_plain (share_file k) ≡ true) × HasPlainFiles rest

module _ (A : Aead) where
  -- DKGService.DistributeKeyShares: the first share that cannot be stored ends it.
  unfoldable pub distribute_key_shares :
      (String → Faults)
      → (String → List ℕ)
      → String
      → Dict (List ℕ)
      → Disk
      → Outcome (Unit {0}) × Disk
  distribute_key_shares f nonce key [] d = (ok tt, d)
  distribute_key_shares f nonce key ((node, share) ∷ rest) d =
      let stored = store_key_share A (f node) (nonce node) key node share d in
      let later = distribute_key_shares f nonce key rest stored.1 in
      elim stored.0 [
        | ok _ ↦ later
        | err e ↦ (err (wrap (◌+++◌ "failed to store key share for node " node) e), stored.1)
      ]

  abbrev with_share : Outcome (List ℕ) → List (List ℕ) → List (List ℕ)
  with_share (ok share) shares = share ∷ shares
  with_share (err _) shares = shares

  -- The shares of the first `n` nodes that can be read.
  unfoldable pub collected : Faults → String → ℕ → List String → Disk → List (List ℕ)
  collected f key zero nodes d = []
  collected f key (suc n) [] d = []
  collected f key (suc n) (node ∷ nodes) d =
      with_share (get_key_share A f key node d) (collected f key n nodes d)

  -- DKGService.RecoverKeyShare
  unfoldable pub recover_key_share : Faults → String → List String → ℕ → Disk → Outcome (List ℕ)
  recover_key_share f key nodes threshold d =
      if ltb (length (collected f key threshold nodes d)) threshold
      then err (message "insufficient shares for recovery")
      else err (message "key share recovery not yet implemented - requires Shamir secret sharing")
