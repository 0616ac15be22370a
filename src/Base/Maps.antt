-- ===== src/Base/Maps.antt =====
-- Maps with text keys, as association lists: a Go map, and a table under its primary key.
use Prim.Native.String.{String}
use text.Mathlib.Text.{◌==◌ as str_eq}
use text.Mathlib.TextEquality.{eq_iff}
use mathlib.Core.Path.{◌≡◌, refl}
use mathlib.Core.Bool.{Bool}
use mathlib.Core.Option.{Option, none, some}
use mathlib.Core.List.{List, [], ◌∷◌}
use native.Mathlib.Omega.{arith}
use go_mpc_wallet.Base.Checks.{if◌then◌else◌}

abbrev pub Dict {ℓ} : Type ℓ → Type ℓ
Dict V = List (String × V)

module _ {ℓ} {V : Type ℓ} where
  unfoldable pub lookup : String → Dict V → Option V
  lookup id [] = none
  lookup id ((i, row) ∷ rows) = if str_eq i id then some row else lookup id rows

  -- Replaces the entry in place, or adds it at the end.
  unfoldable pub insert : String → V → Dict V → Dict V
  insert id new [] = (id, new) ∷ []
  insert id new ((i, row) ∷ rows) =
      let later = insert id new rows in if str_eq i id then (id, new) ∷ rows else (i, row) ∷ later

  -- Removes every entry of the key.
  unfoldable pub erase : String → Dict V → Dict V
  erase id [] = []
  erase id ((i, row) ∷ rows) =
      let kept = erase id rows in if str_eq i id then kept else (i, row) ∷ kept

  -- Keeps the entries that pass the test.
  unfoldable pub keep : (V → Bool) → Dict V → Dict V
  keep p [] = []
  keep p ((i, row) ∷ rows) = let kept = keep p rows in if p row then (i, row) ∷ kept else kept

  pub lookup-insert :
      (id other : String) (new : V) (rows : Dict V)
      → lookup other (insert id new rows)
        ≡ (if str_eq id other then some new else lookup other rows)
  unfolding lookup insert
  lookup-insert id other new [] = refl
  lookup-insert id other new ((i, row) ∷ rows) =
      ground (arith, eq_iff id other, eq_iff i id, eq_iff i other, lookup-insert id other new rows)

  pub lookup-erase :
      (id other : String) (rows : Dict V)
      → lookup other (erase id rows) ≡ (if str_eq id other then none else lookup other rows)
  unfolding lookup erase
  lookup-erase id other [] = ground arith
  lookup-erase id other ((i, row) ∷ rows) =
      ground (arith, eq_iff id other, eq_iff i id, eq_iff i other, lookup-erase id other rows)

  -- The rows, without their keys.
  abbrev pub values : Dict V → List V
  values [] = []
  values ((_, row) ∷ rows) = row ∷ values rows
