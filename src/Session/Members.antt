-- ===== src/Session/Members.antt =====
-- manager.go, JoinSession: the list of the nodes of a session.
use go_mpc_wallet.Base.{
  ◌≡◌, refl, inl, inr, String, true, false, arith, List, [], ◌∷◌, ◌++◌, if◌then◌else◌, Bool-cases,
  str_eq, eq_iff, ◌||◌,
}
use go_mpc_wallet.Storage.Types.{SigningSession}
use go_mpc_wallet.Session.Types.{active}
use go_mpc_wallet.Session.Manager.{contains}

-- No text is twice in the list.
abbrev pub AreDistinct : List String → Type 0
AreDistinct [] = Unit
AreDistinct (x ∷ xs) = (contains x xs ≡ false) × AreDistinct xs

pub contains-append :
    (x n : String) (xs : List String) → contains x (xs ++ n ∷ []) ≡ contains x xs || str_eq n x
unfolding contains
contains-append x n [] = ground arith
contains-append x n (y ∷ ys) = ground (arith, contains-append x n ys)

pub append-AreDistinct :
    (n : String) (xs : List String)
    → contains n xs ≡ false
    → AreDistinct xs
    → AreDistinct (xs ++ n ∷ [])
unfolding contains
append-AreDistinct n [] new d = (refl, tt)
append-AreDistinct n (x ∷ xs) new d = ground (
  arith,
  contains-append x n xs,
  append-AreDistinct n xs (ground arith) d.1,
  eq_iff n x,
  eq_iff x n,
)

-- The row of a session that a node has joined.
abbrev pub joined_row : SigningSession → String → SigningSession
joined_row row n =
    if contains n row.participating_nodes
    then row
    else record row { participating_nodes = row.participating_nodes ++ n ∷ []; status = active }

pub contains-joined_row :
    (row : SigningSession) (n : String) → contains n (joined_row row n).participating_nodes ≡ true
contains-joined_row row n = ground (arith, contains-append n n row.participating_nodes, eq_iff n n)

pub joined_row-AreDistinct :
    (row : SigningSession) (n : String)
    → AreDistinct row.participating_nodes
    → AreDistinct (joined_row row n).participating_nodes
joined_row-AreDistinct row n d = elim (Bool-cases (contains n row.participating_nodes)) [
  | inl old ↦ rw old d
  | inr new ↦ rw new (append-AreDistinct n row.participating_nodes new d)
]
