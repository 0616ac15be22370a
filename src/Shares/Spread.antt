-- ===== src/Shares/Spread.antt =====
-- key/dkg.go: where DistributeKeyShares puts the shares.
use go_mpc_wallet.Base.{
  ℕ, ◌≡◌, ◌≢◌, refl, sym, ◌∙◌, inl, inr, ap, String, Bool, true, false, List, [], ◌∷◌, length,
  str_eq, str_eq_ne, eq_iff, arith, lookup-insert, lookup-erase, if◌then◌else◌, ◌+++◌, Option, some,
  none, Dict, lookup, Option-cases, Bool-cases, insert, erase,
}
use go_mpc_wallet.Storage.World.{Outcome, ok, Outcome-cases}
use go_mpc_wallet.Shares.Files.{
  is_plain, share_file, Aead, Disk, Faults, store_key_share, get_key_share, file_at, files_of,
  write_encrypted, make_dir, put_file, rename_file, read_encrypted, encrypt,
}
use go_mpc_wallet.Shares.Distribute.{HasPlainFiles, HasDistinctKeys, distribute_key_shares}
use go_mpc_wallet.Shares.RoundTrip.{files_of-insert, get-store_key_share}
use Prim.Native.Char.{Char, code}
use text.Mathlib.TextLemmas.{append_cancel_right, nil-append, cons-append}

last_char : Char → String → Char
last_char d String.[] = d
last_char d (String.◌∷◌ c s) = last_char c s

last_char-append :
    (d c : Char) (s t : String) → last_char d (◌+++◌ s (String.◌∷◌ c t)) ≡ last_char c t
unfolding last_char
last_char-append d c String.[] t = ground (arith, nil-append (String.◌∷◌ c t))
last_char-append d c (String.◌∷◌ x s) t =
    ground (arith, cons-append x s (String.◌∷◌ c t), last_char-append x c s t)

enc_tmp : (a b : String) → ◌+++◌ (◌+++◌ a ".enc") ".tmp" ≢ ◌+++◌ b ".enc"
unfolding last_char
enc_tmp a b same =
    c_p (sym (ends (◌+++◌ a ".enc") ".tmp" refl) ∙ (ap (last_char "x") same ∙ ends b ".enc" refl))
  where
    ends :
        (s t : String) {c : Char} {u : String}
        → t ≡ String.◌∷◌ c u
        → last_char "x" (◌+++◌ s t) ≡ last_char c u
    ends s t {c} {u} is = ap (λ v. last_char "x" (◌+++◌ s v)) is ∙ last_char-append "x" c s u

    c_p : last_char "." "tmp" ≢ last_char "." "enc"
    c_p same = ground (arith, ap code same)

enc-injective : (a b : String) → ◌+++◌ a ".enc" ≡ ◌+++◌ b ".enc" → a ≡ b
enc-injective a b same = append_cancel_right a b ".enc" same

ne_true : {b : Bool} → b ≡ false → b ≡ true → ⊥
ne_true is_false is_true = ground arith

-- A path that a write of `name` in `dir` does not touch.
abbrev IsApart : String → String → String → String → Type 0
IsApart dir name other n =
    str_eq dir other ≡ true → (str_eq name n ≡ false) × (str_eq (◌+++◌ name ".tmp") n ≡ false)

frame-make_dir :
    (dir other n : String) (d : Disk) → file_at other n (make_dir dir d) ≡ file_at other n d
unfolding make_dir
frame-make_dir dir other n d =
    ground (arith, files_of-insert dir other (files_of dir d) d, eq_iff dir other)

frame-put_file :
    (dir name other n : String) (bytes : List ℕ) (d : Disk)
    → (str_eq dir other ≡ true → str_eq name n ≡ false)
    → file_at other n (put_file dir name bytes d) ≡ file_at other n d
unfolding put_file
frame-put_file dir name other n bytes d apart = ground (
  arith,
  files_of-insert dir other (insert name bytes (files_of dir d)) d,
  eq_iff dir other,
  lookup-insert name n bytes (files_of dir d),
)

frame-rename :
    (dir old new other n : String) (d : Disk)
    → (str_eq dir other ≡ true → (str_eq new n ≡ false) × (str_eq old n ≡ false))
    → file_at other n (rename_file dir old new d) ≡ file_at other n d
unfolding rename_file
frame-rename dir old new other n d apart = elim (Option-cases (file_at dir old d)) [
  | inl missing ↦ ground arith
  | inr (bytes, there) ↦ ground (
    arith,
    files_of-insert dir other (insert new bytes (erase old (files_of dir d))) d,
    eq_iff dir other,
    lookup-insert new n bytes (erase old (files_of dir d)),
    lookup-erase old n (files_of dir d),
  )
]

abbrev pub share_or : Option (List ℕ) → Outcome (List ℕ) → Outcome (List ℕ)
share_or (some share) before = ok share
share_or none before = before

module _ (A : Aead) where
  frame-write_encrypted :
      (f : Faults) (dir name other n : String) (bytes : List ℕ) (d : Disk)
      → IsApart dir name other n
      → file_at other n (write_encrypted A f dir name bytes d).1 ≡ file_at other n d
  unfolding write_encrypted
  frame-write_encrypted f dir name other n bytes d apart =
      let tmp = ◌+++◌ name ".tmp" in
      let made = make_dir dir d in
      let written = put_file dir tmp bytes made in
      ground (
        arith,
        frame-make_dir dir other n d,
        frame-put_file dir tmp other n bytes made (λ same. (apart same).1),
        frame-rename dir tmp name other n written apart,
      )

  -- Storing a node's share of a key leaves the other shares.
  get-store_other :
      (f g : Faults) (nonce : List ℕ) (key node key' node' : String) (share : List ℕ) (d : Disk)
      → is_plain key ≡ true
      → is_plain key' ≡ true
      → is_plain (share_file node) ≡ true
      → is_plain (share_file node') ≡ true
      → (key ≡ key' → node ≢ node')
      → get_key_share A g key' node' (store_key_share A f nonce key node share d).1
        ≡ get_key_share A g key' node' d
  unfolding store_key_share get_key_share read_encrypted
  get-store_other f g nonce key node key' node' share d plain plain' named named' differ =
      let same =
        frame-write_encrypted f key (share_file node) key' (share_file node')
          (encrypt A nonce share) d
          (λ same. (
            str_eq_ne (share_file node) (share_file node')
                (λ e. differ ((eq_iff key key').0 same) (enc-injective node node' e)),
            str_eq_ne (◌+++◌ (share_file node) ".tmp") (share_file node') (enc_tmp node node'),
          )) in
      let here = A.place-is_plain key (share_file node) plain named in
      let there = A.place-is_plain key' (share_file node') plain' named' in ground (arith, same)

  -- For keys and names of nodes' files that are plain elements of a path, which filepath.Join
  -- leaves as they are: where every nonce has AES-GCM's size and DistributeKeyShares succeeds for
  -- a map of shares, whatever the order in which the map is read, GetKeyShare then reads, as far
  -- as the file can be read, for that key and each node of the map that node's share, and for
  -- another such key or node what it read before.
  pub get-distribute_key_shares :
      (f : String → Faults) (g : Faults) (nonce : String → List ℕ) (key : String)
      (shares : Dict (List ℕ)) (d : Disk) (key' node' : String)
      → ((node : String) → length (nonce node) ≡ A.nonce_size)
      → g.read_file ≡ false
      → HasDistinctKeys shares
      → is_plain key ≡ true
      → is_plain key' ≡ true
      → HasPlainFiles shares
      → is_plain (share_file node') ≡ true
      → (distribute_key_shares A f nonce key shares d).0 ≡ ok tt
      → get_key_share A g key' node' (distribute_key_shares A f nonce key shares d).1 ≡ (
          if str_eq key key'
          then share_or (lookup node' shares) (get_key_share A g key' node' d)
          else get_key_share A g key' node' d)
  unfolding distribute_key_shares lookup HasDistinctKeys HasPlainFiles
  get-distribute_key_shares f g nonce key [] d key' node' sizes readable distinct plain plain' files
        named' done =
      ground arith
  get-distribute_key_shares f g nonce key ((node, share) ∷ rest) d key' node' sizes readable
        distinct plain plain' files named' done =
      let stored = store_key_share A (f node) (nonce node) key node share d in
      elim (Outcome-cases stored.0) [
        | inr (e, lost) ↦ ground arith
        | inl (_, fine) ↦
            let later =
              get-distribute_key_shares f g nonce key rest stored.1 key' node' sizes readable
                distinct.1 plain plain' files.1 named' (ground arith) in
            let own =
              (get-store_key_share A (f node) g (nonce node) key node share d (sizes node)
                  readable).0
                fine in
            let others = λ (apart : key ≡ key' → node ≢ node').
              get-store_other (f node) g (nonce node) key node key' node' share d plain plain'
                files.0 named' apart in
            elim (Bool-cases (str_eq key key')) [
              | inr far ↦
                  ground
                    (arith, later, others (λ same. absurd (ne_true far ((eq_iff key key').1 same))))
              | inl near ↦ elim (Bool-cases (str_eq node node')) [
                | inl it ↦
                    ground (arith, later, own, eq_iff key key', eq_iff node node', distinct.0)
                | inr not_it ↦
                    ground
                      (arith, later, others (λ _ same. ne_true not_it ((eq_iff node node').1 same)))
              ]
            ]
      ]
