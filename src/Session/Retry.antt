-- ===== src/Session/Retry.antt =====
-- manager.go, CreateKeyGenSession: the loop that saves the session up to three times.
use go_mpc_wallet.Base.{
  ℕ, zero, suc, ◌+◌, ◌*◌, ◌-◌, ◌⊎◌, ◌≤◌, ◌≡◌, refl, inl, inr, true, Option, none, some, lookup,
  arith, List, [], ◌∷◌, length, lookup-insert, str_eq_self, Dict,
}
use go_mpc_wallet.Storage.Types.{SigningSession}
use go_mpc_wallet.Storage.World.{
  Redis, World, ok, err, Error, Call, Fate, works, refused, unanswered, arrive, write, query,
  Outcome-cases, later_calls,
}
use go_mpc_wallet.Storage.Postgres.{save_signing_session, upsert_session, upserted_session, has_key}
use go_mpc_wallet.Session.Manager.{retry_save, sleep}

-- What the table says of a session that has been saved.
abbrev pub Saved : {R : Redis} → SigningSession → Option SigningSession → World R → Type 0
Saved s before w = lookup s.session_id w.sessions ≡ some (upserted_session s before)

pub lookup-upsert_session :
    (s : SigningSession) (rows : Dict SigningSession)
    → lookup s.session_id (upsert_session s rows)
      ≡ some (upserted_session s (lookup s.session_id rows))
unfolding upsert_session
lookup-upsert_session s rows = ground (
  arith,
  str_eq_self s.session_id,
  lookup-insert s.session_id s.session_id (upserted_session s (lookup s.session_id rows)) rows,
)

pub length-later_calls : (cs : List Call) → length (later_calls cs) ≤ length cs - 1
length-later_calls [] = omega arith
length-later_calls (c ∷ cs) = omega arith

pub nil_of_length : (cs : List Call) → length cs ≤ 0 → cs ≡ []
nil_of_length [] h = refl
nil_of_length (c ∷ cs) h = absurd (omega arith)

abbrev pub failing : Fate → ℕ
failing works = 0
failing refused = 1
failing unanswered = 1

-- How many of the calls fail.
unfoldable pub failures : List Call → ℕ
failures [] = 0
failures (c ∷ cs) = failing c.fate + failures cs

failing-bound : (f : Fate) → failing f ≤ 1
failing-bound works = omega arith
failing-bound refused = omega arith
failing-bound unanswered = omega arith

pub failures-length : (cs : List Call) → failures cs ≤ length cs
unfolding failures
failures-length [] = omega arith
failures-length (c ∷ cs) = omega (arith, failures-length cs, failing-bound c.fate)

Fate-cases : (f : Fate) → (f ≡ works) ⊎ (failing f ≡ 1)
Fate-cases works = inl refl
Fate-cases refused = inr refl
Fate-cases unanswered = inr refl

-- Saving once more changes nothing.
upserted-again :
    (s : SigningSession) (before : Option SigningSession)
    → upserted_session s (some (upserted_session s before)) ≡ upserted_session s before
upserted-again s none = refl
upserted-again s (some old) = refl

module _ {R : Redis} (s : SigningSession) (w : World R) where
  -- However an attempt ends it uses up a call, leaves the keys alone, and has saved the session or
  -- left the table alone.
  save-frame :
      let v = (save_signing_session s w).1 in
      (v.keys ≡ w.keys)
      × (length v.calls ≤ length (later_calls w.calls))
      × ((v.sessions ≡ w.sessions) ⊎ Saved s (lookup s.session_id w.sessions) v)
  unfolding save_signing_session write query arrive
  save-frame =
      ground (arith, length-later_calls (later_calls w.calls), lookup-upsert_session s w.sessions)

  -- With a key in place, an attempt that fails has used up a call that fails.
  save-lost :
      (cs : List Call) {e : Error}
      → w.calls ≡ cs
      → has_key s.key_id w.keys ≡ true
      → (save_signing_session s w).0 ≡ err e
      → (failures (save_signing_session s w).1.calls + 1 ≤ failures cs)
        × ((save_signing_session s w).1.keys ≡ w.keys)
  unfolding save_signing_session write query arrive failures
  save-lost [] coming known lost = ground arith
  save-lost (c ∷ []) coming known lost = elim (Fate-cases c.fate) [
    | inl fine ↦ ground arith
    | inr bad ↦ ground arith
  ]
  save-lost (c ∷ (d ∷ cs)) coming known lost = elim (Fate-cases c.fate) [
    | inr bad ↦ ground arith
    | inl fine ↦ elim (Fate-cases d.fate) [ inl fine' ↦ ground arith | inr bad' ↦ ground arith ]
  ]

  -- With a key in place and no failure ahead an attempt succeeds.
  save-calm : has_key s.key_id w.keys ≡ true → w.calls ≡ [] → (save_signing_session s w).0 ≡ ok tt
  unfolding save_signing_session write query arrive
  save-calm known calm = ground arith

  pub save-ok :
      (save_signing_session s w).0 ≡ ok tt
      → ((save_signing_session s w).1.calls ≡ later_calls (later_calls w.calls))
        × ((save_signing_session s w).1.keys ≡ w.keys)
        × Saved s (lookup s.session_id w.sessions) (save_signing_session s w).1
  unfolding save_signing_session write query arrive
  save-ok h = ground (arith, lookup-upsert_session s w.sessions)

module _ {R : Redis} (s : SigningSession) where
  -- Attempts to save a session that succeed have saved it: its row is the session, with the time
  -- of creation of the row that was there before, if any.
  pub retry_save-ok :
      (n delay : ℕ) (w : World R)
      → (retry_save (suc n) delay s w).0 ≡ ok tt
      → Saved s (lookup s.session_id w.sessions) (retry_save (suc n) delay s w).1
  unfolding retry_save
  retry_save-ok zero delay w done = (save-ok s w done).2
  retry_save-ok (suc n) delay w done = elim (Outcome-cases (save_signing_session s w).0) [
    | inl (_, saved) ↦ ground (arith, save-ok s w saved)
    | inr (e, failed_once) ↦ ground (
      arith,
      save-frame s w,
      upserted-again s (lookup s.session_id w.sessions),
      retry_save-ok n (delay * 2) (sleep delay (save_signing_session s w).1),
    )
  ]

  -- Where the key's row is there, and at most n of the coming calls fail, whichever these are, n +
  -- 1 attempts to save a session succeed.
  pub retry_save-total :
      (n delay : ℕ) (w : World R)
      → has_key s.key_id w.keys ≡ true
      → failures w.calls ≤ n
      → (retry_save (suc n) delay s w).0 ≡ ok tt
  unfolding retry_save
  retry_save-total zero delay w known few = elim (Outcome-cases (save_signing_session s w).0) [
    | inl (_, saved) ↦ saved
    | inr (e, lost) ↦ absurd (omega (arith, (save-lost s w w.calls refl known lost).0))
  ]
  retry_save-total (suc n) delay w known few = elim (Outcome-cases (save_signing_session s w).0) [
    | inl (_, saved) ↦ ground arith
    | inr (e, lost) ↦ ground (
      arith,
      save-lost s w w.calls refl known lost,
      retry_save-total n (delay * 2) (sleep delay (save_signing_session s w).1),
    )
  ]

  -- A retry that succeeds has used up two calls at least, and leaves the keys alone.
  pub retry_save-calls :
      (n delay : ℕ) (w : World R)
      → (retry_save (suc n) delay s w).0 ≡ ok tt
      → (length (retry_save (suc n) delay s w).1.calls ≤ length w.calls - 2)
        × ((retry_save (suc n) delay s w).1.keys ≡ w.keys)
  unfolding retry_save
  retry_save-calls zero delay w done = ground (
    arith,
    save-ok s w done,
    length-later_calls w.calls,
    length-later_calls (later_calls w.calls),
  )
  retry_save-calls (suc n) delay w done = elim (Outcome-cases (save_signing_session s w).0) [
    | inl (_, saved) ↦ ground (
      arith,
      save-ok s w saved,
      length-later_calls w.calls,
      length-later_calls (later_calls w.calls),
    )
    | inr (e, failed_once) ↦ ground (
      arith,
      save-frame s w,
      length-later_calls w.calls,
      retry_save-calls n (delay * 2) (sleep delay (save_signing_session s w).1),
    )
  ]
