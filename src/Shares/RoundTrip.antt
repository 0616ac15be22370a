-- ===== src/Shares/RoundTrip.antt =====
-- storage/key_share_storage.go: what is stored is read back, and a failure keeps what was there.
use go_mpc_wallet.Base.{
  ℕ, suc, ◌+◌, ◌≡◌, refl, inl, inr, String, false, List, [], ◌∷◌, ◌++◌, some, Dict, insert, erase,
  length, take, drop, if◌then◌else◌, str_eq, eq_iff, str_eq_self, lookup-insert, lookup-erase,
  arith, Option-cases, ◌+++◌, length-append,
}
use go_mpc_wallet.Storage.World.{ok, err, Error, message}
use text.Mathlib.TextLemmas.{nil-append, cons-append}
use go_mpc_wallet.Base.{str_eq_ne, ap}
use go_mpc_wallet.Shares.Files.{
  share_file, Aead, Disk, Faults, file_at, files_of, encrypt, decrypt, write_encrypted,
  read_encrypted, store_key_share, get_key_share, delete_key_share, make_dir, put_file, rename_file,
  without_directory,
}

text_length : String → ℕ
text_length String.[] = 0
text_length (String.◌∷◌ c s) = suc (text_length s)

text_length-append : (s t : String) → text_length (◌+++◌ s t) ≡ text_length s + text_length t
unfolding text_length
text_length-append String.[] t = ground (arith, nil-append t)
text_length-append (String.◌∷◌ c s) t = ground (arith, cons-append c s t, text_length-append s t)

tmp_differs : (name : String) → str_eq (◌+++◌ name ".tmp") name ≡ false
unfolding text_length
tmp_differs name =
    str_eq_ne (◌+++◌ name ".tmp") name
      (λ same. absurd (longer (ap text_length same) (text_length-append name ".tmp")))
  where
    longer : {n m : ℕ} → n ≡ m → n ≡ m + 4 → ⊥
    longer same more = omega arith

pub files_of-insert :
    (dir other : String) (fs : Dict (List ℕ)) (d : Disk)
    → files_of other (insert dir fs d) ≡ (if str_eq dir other then fs else files_of other d)
files_of-insert dir other fs d = ground (arith, lookup-insert dir other fs d)

take-prefix : (xs ys : List ℕ) → take (length xs) (xs ++ ys) ≡ xs
take-prefix [] ys = refl
take-prefix (x ∷ xs) ys = ground (arith, take-prefix xs ys)

drop-prefix : (xs ys : List ℕ) → drop (length xs) (xs ++ ys) ≡ ys
drop-prefix [] ys = refl
drop-prefix (x ∷ xs) ys = drop-prefix xs ys

file_at-make_dir :
    (dir other name : String) (d : Disk)
    → file_at other name (make_dir dir d) ≡ file_at other name d
unfolding make_dir
file_at-make_dir dir other name d =
    ground (arith, files_of-insert dir other (files_of dir d) d, eq_iff dir other)

file_at-put_file :
    (dir name other : String) (bytes : List ℕ) (d : Disk)
    → file_at dir other (put_file dir name bytes d)
      ≡ (if str_eq name other then some bytes else file_at dir other d)
unfolding put_file
file_at-put_file dir name other bytes d = ground (
  arith,
  files_of-insert dir dir (insert name bytes (files_of dir d)) d,
  str_eq_self dir,
  lookup-insert name other bytes (files_of dir d),
)

file_at-rename :
    (dir old new : String) (bytes : List ℕ) (d : Disk)
    → file_at dir old d ≡ some bytes
    → file_at dir new (rename_file dir old new d) ≡ some bytes
unfolding rename_file
file_at-rename dir old new bytes d held = ground (
  arith,
  files_of-insert dir dir (insert new bytes (erase old (files_of dir d))) d,
  str_eq_self dir,
  str_eq_self new,
  lookup-insert new new bytes (erase old (files_of dir d)),
)

files_of-without :
    (dir : String) (fs : Dict (List ℕ)) (d : Disk) → files_of dir (without_directory dir fs d) ≡ fs
files_of-without dir [] d = ground (arith, lookup-erase dir dir d, str_eq_self dir)
files_of-without dir (f ∷ fs) d = ground (arith, lookup-insert dir dir (f ∷ fs) d, str_eq_self dir)

module _ (A : Aead) where
  decrypt-encrypt :
      (nonce plain : List ℕ)
      → length nonce ≡ A.nonce_size
      → decrypt A (encrypt A nonce plain) ≡ ok plain
  unfolding decrypt encrypt
  decrypt-encrypt nonce plain fits = ground (
    arith,
    length-append nonce (A.seal nonce plain),
    take-prefix nonce (A.seal nonce plain),
    drop-prefix nonce (A.seal nonce plain),
    A.open-seal nonce plain,
  )

  -- What is at the path after a write: the new bytes if it succeeded, else what was there before.
  write-file_at :
      (f : Faults) (dir name : String) (bytes : List ℕ) (d : Disk)
      → let r = write_encrypted A f dir name bytes d in
        (r.0 ≡ ok tt → file_at dir name r.1 ≡ some bytes)
        × ((e : Error) → r.0 ≡ err e → file_at dir name r.1 ≡ file_at dir name d)
  unfolding write_encrypted
  write-file_at f dir name bytes d =
      let tmp = ◌+++◌ name ".tmp" in
      let made = make_dir dir d in
      let written = put_file dir tmp bytes made in
      (
        λ done. ground (
          arith,
          file_at-put_file dir tmp tmp bytes made,
          str_eq_self tmp,
          file_at-rename dir tmp name bytes written,
        ),
        λ e failed. ground (
          arith,
          file_at-make_dir dir dir name d,
          file_at-put_file dir tmp name bytes made,
          tmp_differs name,
        ),
      )

  -- A key share that StoreKeyShare stores under a nonce of AES-GCM's size is what GetKeyShare
  -- reads, as far as the file can be read. Where StoreKeyShare fails, at whatever step,
  -- GetKeyShare reads what it read before.
  pub get-store_key_share :
      (f g : Faults) (nonce : List ℕ) (key node : String) (share : List ℕ) (d : Disk)
      → length nonce ≡ A.nonce_size
      → g.read_file ≡ false
      → let r = store_key_share A f nonce key node share d in
        (r.0 ≡ ok tt → get_key_share A g key node r.1 ≡ ok share)
        × ((e : Error)
            → r.0 ≡ err e
            → get_key_share A g key node r.1 ≡ get_key_share A g key node d)
  unfolding store_key_share get_key_share read_encrypted
  get-store_key_share f g nonce key node share d fits readable =
      let (dir, name) = A.place key (share_file node) in
      let (stored, failed) = write-file_at f dir name (encrypt A nonce share) d in
      (
        λ done. ground (arith, stored done, decrypt-encrypt nonce share fits),
        λ e lost. ground (arith, failed e lost),
      )

  -- After a DeleteKeyShare that succeeds, GetKeyShare finds no key share.
  pub get-delete_key_share :
      (f g : Faults) (key node : String) (d : Disk)
      → (delete_key_share A f key node d).0 ≡ ok tt
      → get_key_share A g key node (delete_key_share A f key node d).1
        ≡ err (message "key share not found")
  unfolding delete_key_share get_key_share read_encrypted
  get-delete_key_share f g key node d done =
      let (dir, name) = A.place key (share_file node) in
      elim (Option-cases (file_at dir name d)) [
        | inl missing ↦ ground arith
        | inr (c, there) ↦ ground (
          arith,
          files_of-without dir (erase name (files_of dir d)) d,
          lookup-erase name name (files_of dir d),
          str_eq_self name,
        )
      ]
