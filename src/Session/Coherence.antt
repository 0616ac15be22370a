-- ===== src/Session/Coherence.antt =====
-- The agreement of the cache and the database on a session, and what keeps it.
use go_mpc_wallet.Base.{ℕ, ◌≤◌, ◌≡◌, String, some, lookup, subst, sym, arith}
use go_mpc_wallet.Storage.Types.{SigningSession}
use go_mpc_wallet.Storage.World.{Redis, World, Entry, session_json}
use go_mpc_wallet.Storage.Cache.{session_key}

-- The row stands under its own identifier, and whatever the cache will show for it from now on is
-- the row.
pub record IsCoherent {R : Redis} (id : String) (w : World R) : Type 0 where
  pub filed : (s : SigningSession) → lookup id w.sessions ≡ some s → s.session_id ≡ id
  pub cached :
      (t : ℕ) (e : Entry)
      → w.now ≤ t
      → R.get (session_key id) t w.cache ≡ some e
      → (s : SigningSession) × (e ≡ session_json s) × (lookup id w.sessions ≡ some s)

-- Two states with the same tables and cache.
abbrev pub SameData : {R : Redis} → World R → World R → Type 0
SameData v w =
    (v.keys ≡ w.keys) × (v.nodes ≡ w.nodes) × (v.sessions ≡ w.sessions) × (v.cache ≡ w.cache)

-- Agreement outlasts what changes neither the sessions nor the cache and does not turn the clock back.
pub SameData-IsCoherent :
    {R : Redis} (id : String) (v w : World R)
    → v.sessions ≡ w.sessions
    → v.cache ≡ w.cache
    → w.now ≤ v.now
    → IsCoherent id w
    → IsCoherent id v
SameData-IsCoherent {R} id v w rows cache later c = record {
  filed = λ s h. c.filed s (subst (λ rows. lookup id rows ≡ some s) rows h);
  cached = λ t e le h.
      let (s, shape, found) =
        c.cached t e (omega arith) (subst (λ db. R.get (session_key id) t db ≡ some e) cache h) in
      (s, shape, subst (λ rows. lookup id rows ≡ some s) (sym rows) found);
}
