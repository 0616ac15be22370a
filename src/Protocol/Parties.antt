-- ===== src/Protocol/Parties.antt =====
-- protocol/tss_adapter.go: the party identifiers of the nodes. SHA-256 as a number and the order of
-- tss.SortPartyIDs are parameters.
use go_mpc_wallet.Base.{
  ℕ, ◌≡◌, refl, inl, inr, String, List, [], ◌∷◌, Option, none, some, Dict, lookup, insert, eq_iff,
  str_eq_self, lookup-insert, arith, Option-cases, map,
}
use go_mpc_wallet.Storage.World.{Outcome, ok, err, message}

-- `tss.PartyID`, made of an identifier, a moniker and a key.
pub record PartyId : Type 0 where
  pub id : String
  pub moniker : String
  pub unique_key : ℕ

pub record Parties : Type 0 where
  pub node_to_party : Dict PartyId
  pub party_to_node : Dict String

module _ (sha256 : String → ℕ) where
  abbrev pub party_of : String → PartyId
  party_of node = record { id = node; moniker = node; unique_key = sha256 node }

  abbrev add_party : String → Parties → Parties
  add_party node p = record {
    node_to_party = insert node (party_of node) p.node_to_party;
    party_to_node = insert (party_of node).id node p.party_to_node;
  }

  -- A node that has a party identifier keeps it.
  unfoldable pub setup_one : String → Parties → Parties
  setup_one node p = elim (lookup node p.node_to_party) [ some _ ↦ p | none ↦ add_party node p ]

  unfoldable pub setup_party_ids : List String → Parties → Parties
  setup_party_ids [] p = p
  setup_party_ids (node ∷ nodes) p = setup_party_ids nodes (setup_one node p)

  abbrev push_party : Option PartyId → Outcome (List PartyId) → Outcome (List PartyId)
  push_party none rest = err (message "party ID not found for node")
  push_party (some p) (err e) = err e
  push_party (some p) (ok ps) = ok (p ∷ ps)

  unfoldable pub collect : List String → Parties → Outcome (List PartyId)
  collect [] p = ok []
  collect (node ∷ nodes) p = push_party (lookup node p.node_to_party) (collect nodes p)

  abbrev sorted : (List PartyId → List PartyId) → Outcome (List PartyId) → Outcome (List PartyId)
  sorted order (ok ps) = ok (order ps)
  sorted order (err e) = err e

  unfoldable pub get_party_ids :
      (List PartyId → List PartyId) → List String → Parties → Outcome (List PartyId)
  get_party_ids order nodes p = sorted order (collect nodes p)

  -- Every node's party identifier is the one made of its name, and leads back to it.
  pub record IsMatched (p : Parties) : Type 0 where
    pub made :
        (node : String) (q : PartyId) → lookup node p.node_to_party ≡ some q → q ≡ party_of node
    pub back :
        (node : String) (q : PartyId)
        → lookup node p.node_to_party ≡ some q
        → lookup node p.party_to_node ≡ some node

  setup_one-IsMatched : (node : String) (p : Parties) → IsMatched p → IsMatched (setup_one node p)
  unfolding setup_one
  setup_one-IsMatched node p inv = elim (Option-cases (lookup node p.node_to_party)) [
    | inr (q, known) ↦ record {
      made = λ n r found. inv.made n r (ground arith);
      back = λ n r found. ground (arith, inv.back n r (ground arith));
    }
    | inl fresh ↦ record {
      made = λ n r found. ground (
        arith,
        lookup-insert node n (party_of node) p.node_to_party,
        eq_iff node n,
        inv.made n r,
      );
      back = λ n r found. ground (
        arith,
        lookup-insert node n (party_of node) p.node_to_party,
        lookup-insert node n node p.party_to_node,
        eq_iff node n,
        inv.back n r,
      );
    }
  ]

  setup_one-found :
      (node : String) (p : Parties)
      → (q : PartyId) × (lookup node (setup_one node p).node_to_party ≡ some q)
  unfolding setup_one
  setup_one-found node p = elim (Option-cases (lookup node p.node_to_party)) [
    | inr (q, known) ↦ (q, ground arith)
    | inl fresh ↦ (
      party_of node,
      ground (arith, lookup-insert node node (party_of node) p.node_to_party, str_eq_self node),
    )
  ]

  setup_one-keeps :
      (node other : String) (p : Parties) (q : PartyId)
      → lookup other p.node_to_party ≡ some q
      → lookup other (setup_one node p).node_to_party ≡ some q
  unfolding setup_one
  setup_one-keeps node other p q known = elim (Option-cases (lookup node p.node_to_party)) [
    | inr (r, there) ↦ ground arith
    | inl fresh ↦
        ground (arith, lookup-insert node other (party_of node) p.node_to_party, eq_iff node other)
  ]

  setup-IsMatched :
      (nodes : List String) (p : Parties) → IsMatched p → IsMatched (setup_party_ids nodes p)
  unfolding setup_party_ids
  setup-IsMatched [] p inv = inv
  setup-IsMatched (node ∷ nodes) p inv =
      setup-IsMatched nodes (setup_one node p) (setup_one-IsMatched node p inv)

  setup-keeps :
      (nodes : List String) (other : String) (p : Parties) (q : PartyId)
      → lookup other p.node_to_party ≡ some q
      → lookup other (setup_party_ids nodes p).node_to_party ≡ some q
  unfolding setup_party_ids
  setup-keeps [] other p q known = known
  setup-keeps (node ∷ nodes) other p q known =
      setup-keeps nodes other (setup_one node p) q (setup_one-keeps node other p q known)

  -- Each of the nodes is known by the identifier of its name.
  abbrev AllKnown : List String → Parties → Type 0
  AllKnown [] p = Unit
  AllKnown (node ∷ nodes) p =
      (lookup node p.node_to_party ≡ some (party_of node)) × AllKnown nodes p

  setup-AllKnown :
      (nodes : List String) (p : Parties) → IsMatched p → AllKnown nodes (setup_party_ids nodes p)
  unfolding setup_party_ids
  setup-AllKnown [] p inv = tt
  setup-AllKnown (node ∷ nodes) p inv =
      let one = setup_one-IsMatched node p inv in
      let (q, found) = setup_one-found node p in
      (
        setup-keeps nodes node (setup_one node p) (party_of node)
            (ground (arith, one.made node q found)),
        setup-AllKnown nodes (setup_one node p) one,
      )

  collect-AllKnown :
      (nodes : List String) (p : Parties)
      → AllKnown nodes p
      → collect nodes p ≡ ok (map party_of nodes)
  unfolding collect
  collect-AllKnown [] p known = refl
  collect-AllKnown (node ∷ nodes) p (first, rest) = ground (arith, collect-AllKnown nodes p rest)

  -- Where every known node has the party identifier made of its name, which leads back to it, this
  -- stays so when the identifiers of more nodes are set up, and getPartyIDs then finds them all:
  -- the identifiers made of these nodes' names, in the order of tss-lib.
  pub setup-get_party_ids :
      (order : List PartyId → List PartyId) (nodes : List String) (p : Parties)
      → IsMatched p
      → IsMatched (setup_party_ids nodes p)
        × (get_party_ids order nodes (setup_party_ids nodes p) ≡ ok (order (map party_of nodes)))
  unfolding get_party_ids
  setup-get_party_ids order nodes p inv = (
    setup-IsMatched nodes p inv,
    ground (arith, collect-AllKnown nodes (setup_party_ids nodes p) (setup-AllKnown nodes p inv)),
  )

  pub empty-IsMatched : IsMatched (record { node_to_party = []; party_to_node = [] })
  unfolding lookup
  empty-IsMatched = record { made = λ n q found. ground arith; back = λ n q found. ground arith }
