-- ===== src/Storage/World.antt =====
-- What an operation of the services reads and writes: the tables of the PostgreSQL database, the
-- Redis server, the clock, and the fates of the calls to come. The servers are not part of the
-- repository. `Redis` is a parameter, with the documented behaviour of SET with an expiry, GET and
-- DEL. A database call may fail: a fate says whether it works, is refused, or takes effect although
-- the client sees an error (a lost reply). Between calls, time passes by what each call takes.
use go_mpc_wallet.Base.{
  ℕ, ◌+◌, ◌≤◌, ◌<◌, ◌≡◌, ◌≢◌, String, Option, none, some, List, [], ◌∷◌, Dict, refl, inl, inr, ◌⊎◌,
}
use go_mpc_wallet.Storage.Types.{KeyMetadata, NodeInfo, SigningSession}

-- What `errors.New`, `errors.Errorf` and `errors.Wrap` build; `driver` is an error of a server.
pub data Error : Type 0 where
  driver : Error
  message : String → Error
  wrap : String → Error → Error

-- A value under a key: a session's JSON text, which `json.Unmarshal` reads back, or another text.
pub data Entry : Type 0 where
  session_json : SigningSession → Entry
  text : String → Entry

-- `set k v d` stores `v` under `k` until time `d`, or for good if `d` is `none`.
pub record Redis : Type 1 where
  pub Db : Type 0
  pub set : String → Entry → Option ℕ → Db → Db
  pub get : String → ℕ → Db → Option Entry
  pub del : String → Db → Db
  pub get-set_live :
      (k : String) (v : Entry) (d now : ℕ) (db : Db)
      → now < d
      → get k now (set k v (some d) db) ≡ some v
  pub get-set_expired :
      (k : String) (v : Entry) (d now : ℕ) (db : Db)
      → d ≤ now
      → get k now (set k v (some d) db) ≡ none
  pub get-set_forever :
      (k : String) (v : Entry) (now : ℕ) (db : Db) → get k now (set k v none db) ≡ some v
  pub get-set_ne :
      (k j : String) (v : Entry) (d : Option ℕ) (now : ℕ) (db : Db)
      → k ≢ j
      → get j now (set k v d db) ≡ get j now db
  pub get-del_self : (k : String) (now : ℕ) (db : Db) → get k now (del k db) ≡ none
  pub get-del_ne : (k j : String) (now : ℕ) (db : Db) → k ≢ j → get j now (del k db) ≡ get j now db

pub data Fate : Type 0 where
  works refused unanswered : Fate

pub record Call : Type 0 where
  pub fate : Fate
  pub takes : ℕ

-- After the listed calls, every call works and takes no time.
abbrev pub first_fate : List Call → Fate
first_fate [] = works
first_fate (c ∷ _) = c.fate

abbrev pub first_takes : List Call → ℕ
first_takes [] = 0
first_takes (c ∷ _) = c.takes

abbrev pub later_calls : List Call → List Call
later_calls [] = []
later_calls (_ ∷ cs) = cs

pub record World (R : Redis) : Type 0 where
  pub keys : Dict KeyMetadata
  pub nodes : Dict NodeInfo
  pub sessions : Dict SigningSession
  pub cache : R.Db
  pub now : ℕ
  pub calls : List Call

pub data Outcome {ℓ} (A : Type ℓ) : Type ℓ where
  ok : A → Outcome A
  err : Error → Outcome A

-- An operation: what it returns, and the state that it leaves, after an error too.
abbrev pub M : Redis → Type 0 → Type 0
M R A = World R → Outcome A × World R

module _ {R : Redis} where
  abbrev pub pure : {A : Type 0} → A → M R A
  pure a w = (ok a, w)

  abbrev pub fail : {A : Type 0} → Error → M R A
  fail e w = (err e, w)

  abbrev pub current_time : M R ℕ
  current_time w = (ok w.now, w)

  infixl 5 ◌>>=◌ ◌>>◌
  abbrev pub ◌>>=◌ : {A B : Type 0} → M R A → (A → M R B) → M R B
  ◌>>=◌ m f w = let (r, v) = m w in elim r [ ok a ↦ f a v | err e ↦ (err e, v) ]

  abbrev pub ◌>>◌ : {B : Type 0} → M R (Unit {0}) → M R B → M R B
  m >> k = m >>= λ _. k

  -- `if err := m; err != nil { return errors.Wrap(err, text) }`
  abbrev pub wrapping : {A : Type 0} → String → M R A → M R A
  wrapping s m w = let (r, v) = m w in elim r [ ok a ↦ (ok a, v) | err e ↦ (err (wrap s e), v) ]

  -- The state in which the next call is answered.
  unfoldable pub arrive : World R → World R
  arrive w = record w { now = w.now + first_takes w.calls; calls = later_calls w.calls }

  settle : Fate → (World R → World R) → World R → Outcome (Unit {0}) × World R
  settle works f w = (ok tt, f w)
  settle refused f w = (err driver, w)
  settle unanswered f w = (err driver, f w)

  answer : {A : Type 0} → Fate → A → World R → Outcome A × World R
  answer works a w = (ok a, w)
  answer refused a w = (err driver, w)
  answer unanswered a w = (err driver, w)

  -- A call that changes the state.
  unfoldable pub write : (World R → World R) → M R (Unit {0})
  unfolding settle
  write f w = settle (first_fate w.calls) f (arrive w)

  -- A call that reads it.
  unfoldable pub query : {A : Type 0} → (World R → A) → M R A
  unfolding answer
  query f w = answer (first_fate w.calls) (f (arrive w)) (arrive w)

pub Outcome-cases {ℓ} :
    {A : Type ℓ} (o : Outcome A) → ((a : A) × (o ≡ ok a)) ⊎ ((e : Error) × (o ≡ err e))
Outcome-cases (ok a) = inl (a, refl)
Outcome-cases (err e) = inr (e, refl)
