-- ===== src/Protocol/Run.antt =====
-- protocol/gg18.go: an operation of an engine, on the engine's records and on the state of what it
-- calls: it returns a value, or an error, or it panics.
use go_mpc_wallet.Base.{◌≡◌, refl, inl, inr, ◌⊎◌, String, Option, none, some}
use go_mpc_wallet.Storage.World.{Outcome, ok, err, Error, wrap}

pub data Result (A : Type 0) : Type 0 where
  returns : A → Result A
  fails : Error → Result A
  panics : Result A

abbrev pub Run : Type 0 → Type 0 → Type 0
Run S A = S → Result A × S

module _ {S : Type 0} where
  abbrev pub give : {A : Type 0} → A → Run S A
  give a s = (returns a, s)

  abbrev pub refuse : {A : Type 0} → Error → Run S A
  refuse e s = (fails e, s)

  infixl 5 ◌>>=◌ ◌>>◌
  abbrev pub ◌>>=◌ : {A B : Type 0} → Run S A → (A → Run S B) → Run S B
  ◌>>=◌ m f s =
      let (r, t) = m s in
      elim r [ returns a ↦ f a t | fails e ↦ (fails e, t) | panics ↦ (panics, t) ]

  abbrev pub ◌>>◌ : {B : Type 0} → Run S (Unit {0}) → Run S B → Run S B
  m >> k = m >>= λ _. k

  -- `errors.Wrap(err, text)` of what returns an error.
  abbrev pub checking : {A : Type 0} → String → Outcome A → Run S A
  checking text (ok a) s = (returns a, s)
  checking text (err e) s = (fails (wrap text e), s)

  -- The same of a conversion that may panic, here `none`.
  abbrev pub converting : {A : Type 0} → String → Option (Outcome A) → Run S A
  converting text none s = (panics, s)
  converting text (some o) s = checking text o s

pub Result-cases :
    {A : Type 0} (r : Result A)
    → ((a : A) × (r ≡ returns a)) ⊎ (((e : Error) × (r ≡ fails e)) ⊎ (r ≡ panics))
Result-cases (returns a) = inl (a, refl)
Result-cases (fails e) = inr (inl (e, refl))
Result-cases panics = inr (inr refl)
