-- ===== src/Shares/Files.antt =====
-- storage/key_share_storage.go, FileSystemKeyShareStorage. AES-GCM, the random nonce, and the calls of
-- the operating system that may fail are parameters, and so is filepath. A path is given by its
-- directory and the name in it, `filepath.Dir` and `filepath.Base`.
use go_mpc_wallet.Base.{
  ℕ, ◌≡◌, String, Bool, true, false, List, [], ◌∷◌, ◌++◌, Option, none, some, Dict, lookup, insert,
  erase, length, take, drop, ltb, if◌then◌else◌, ◌+++◌, ◌==◌, ◌||◌, ◌&&◌, not, str_eq,
}
use Prim.Native.Char.{code}
use go_mpc_wallet.Storage.World.{Outcome, ok, err, message, wrap, driver}

unfoldable pub has_separator : String → Bool
has_separator String.[] = false
has_separator (String.◌∷◌ c s) = (code c == 47) || has_separator s

-- An element of a path as it stands, which filepath.Join does not clean.
unfoldable pub is_plain : String → Bool
is_plain s =
    not (has_separator s) && (not (str_eq s "") && (not (str_eq s ".") && not (str_eq s "..")))

-- AES-GCM under the key of the storage: `seal nonce plain` and `open_sealed nonce sealed`, which undoes
-- it. `place key name` is `filepath.Join(basePath, key, name)`, and `base` is `filepath.Base` of a
-- directory.
pub record Aead : Type 0 where
  pub nonce_size : ℕ
  pub seal : List ℕ → List ℕ → List ℕ
  pub open_sealed : List ℕ → List ℕ → Option (List ℕ)
  pub place : String → String → String × String
  pub base : String → String
  pub place-is_plain :
      (key name : String)
      → is_plain key ≡ true
      → is_plain name ≡ true
      → place key name ≡ (key, name)
  pub open-seal : (nonce plain : List ℕ) → open_sealed nonce (seal nonce plain) ≡ some plain

-- The directories under the base path, with their files.
abbrev pub Disk : Type 0
Disk = Dict (Dict (List ℕ))

-- Which of the calls of the operating system fail: making the directory, writing, renaming, reading,
-- removing.
pub record Faults : Type 0 where
  pub mkdir : Bool
  pub write_file : Bool
  pub rename : Bool
  pub read_file : Bool
  pub remove : Bool

abbrev pub files_of : String → Disk → Dict (List ℕ)
files_of dir d = elim (lookup dir d) [ none ↦ [] | some fs ↦ fs ]

abbrev pub file_at : String → String → Disk → Option (List ℕ)
file_at dir name d = lookup name (files_of dir d)

-- MkdirAll of a directory under the base path.
unfoldable pub make_dir : String → Disk → Disk
make_dir dir d = insert dir (files_of dir d) d

unfoldable pub put_file : String → String → List ℕ → Disk → Disk
put_file dir name bytes d = insert dir (insert name bytes (files_of dir d)) d

abbrev moved_to : String → String → String → Option (List ℕ) → Disk → Disk
moved_to dir old new none d = d
moved_to dir old new (some bytes) d = insert dir (insert new bytes (erase old (files_of dir d))) d

unfoldable pub rename_file : String → String → String → Disk → Disk
rename_file dir old new d = moved_to dir old new (file_at dir old d) d

-- The directory goes when no file is left in it.
abbrev pub without_directory : String → Dict (List ℕ) → Disk → Disk
without_directory dir [] d = erase dir d
without_directory dir (x ∷ xs) d = insert dir (x ∷ xs) d

abbrev pub share_file : String → String
share_file node = ◌+++◌ node ".enc"

abbrev pub data_file : String → String
data_file node = ◌+++◌ node ".keydata.enc"

module _ (A : Aead) where
  -- The nonce stands in front.
  unfoldable pub encrypt : List ℕ → List ℕ → List ℕ
  encrypt nonce plain = nonce ++ A.seal nonce plain

  abbrev opened : Option (List ℕ) → Outcome (List ℕ)
  opened none = err (wrap "failed to decrypt" driver)
  opened (some plain) = ok plain

  unfoldable pub decrypt : List ℕ → Outcome (List ℕ)
  decrypt c =
      if ltb (length c) A.nonce_size
      then err (message "ciphertext too short")
      else opened (A.open_sealed (take A.nonce_size c) (drop A.nonce_size c))

  -- MkdirAll, WriteFile of the temporary file, Rename.
  unfoldable pub write_encrypted :
      Faults → String → String → List ℕ → Disk → Outcome (Unit {0}) × Disk
  write_encrypted f dir name bytes d =
      if f.mkdir
      then (err (wrap "failed to create directory" driver), d)
      else (if f.write_file
          then (err (wrap "failed to write encrypted share" driver), make_dir dir d)
          else (let written = put_file dir (◌+++◌ name ".tmp") bytes (make_dir dir d) in
              if f.rename
              then (err (wrap "failed to rename temp file" driver), written)
              else (ok tt, rename_file dir (◌+++◌ name ".tmp") name written)))

  abbrev wrapped : String → Outcome (List ℕ) → Outcome (List ℕ)
  wrapped text (ok plain) = ok plain
  wrapped text (err e) = err (wrap text e)

  abbrev when_read : Bool → String → String → List ℕ → Outcome (List ℕ)
  when_read true failed sealed c = err (wrap failed driver)
  when_read false failed sealed c = wrapped sealed (decrypt c)

  -- ReadFile: a file that is not there, or another failure.
  unfoldable pub read_encrypted :
      Faults → String → String → String → String → String → Disk → Outcome (List ℕ)
  read_encrypted f missing failed sealed dir name d = elim (file_at dir name d) [
    | none ↦ err (message missing)
    | some c ↦ when_read f.read_file failed sealed c
  ]

  -- The nonce that rand.Reader gives is an argument.
  unfoldable pub store_key_share :
      Faults → List ℕ → String → String → List ℕ → Disk → Outcome (Unit {0}) × Disk
  store_key_share f nonce key node share d =
      let (dir, name) = A.place key (share_file node) in
      write_encrypted f dir name (encrypt nonce share) d

  unfoldable pub get_key_share : Faults → String → String → Disk → Outcome (List ℕ)
  get_key_share f key node d =
      let (dir, name) = A.place key (share_file node) in
      read_encrypted f "key share not found" "failed to read encrypted share"
        "failed to decrypt key share" dir name d

  unfoldable pub store_key_data :
      Faults → List ℕ → String → String → List ℕ → Disk → Outcome (Unit {0}) × Disk
  store_key_data f nonce key node bytes d =
      let (dir, name) = A.place key (data_file node) in
      write_encrypted f dir name (encrypt nonce bytes) d

  unfoldable pub get_key_data : Faults → String → String → Disk → Outcome (List ℕ)
  get_key_data f key node d =
      let (dir, name) = A.place key (data_file node) in
      read_encrypted f "key data not found" "failed to read encrypted key data"
        "failed to decrypt key data" dir name d

  -- A file that is not there counts as deleted; an empty directory goes too.
  unfoldable pub delete_key_share : Faults → String → String → Disk → Outcome (Unit {0}) × Disk
  delete_key_share f key node d =
      let (dir, name) = A.place key (share_file node) in
      elim (file_at dir name d) [
        | none ↦ (ok tt, d)
        | some _ ↦
            if f.remove
            then (err (wrap "failed to delete key share" driver), d)
            else (ok tt, without_directory dir (erase name (files_of dir d)) d)
      ]

  -- The directories that hold a file of the node's name.
  unfoldable pub list_key_shares : String → Disk → List String
  list_key_shares node [] = []
  list_key_shares node ((dir, fs) ∷ rest) =
      let later = list_key_shares node rest in
      elim (lookup (share_file node) fs) [ none ↦ later | some _ ↦ A.base dir ∷ later ]
