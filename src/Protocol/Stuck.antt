-- ===== src/Protocol/Stuck.antt =====
-- protocol/tss_adapter.go, executeKeygen: a key whose generation was given up.
use go_mpc_wallet.Base.{
  ℕ, ◌≡◌, ◌≢◌, refl, inl, inr, String, Bool, List, [], ◌∷◌, none, some, lookup, eq_iff, str_eq_self,
  lookup-insert, lookup-erase, arith, Option-cases, ◌+++◌,
}
use go_mpc_wallet.Base.Sorting.{sort}
use go_mpc_wallet.Storage.World.{Outcome-cases, err, message}
use go_mpc_wallet.Protocol.Parties.{PartyId, setup_party_ids, get_party_ids}
use go_mpc_wallet.Protocol.Keygen.{
  Stage, cleared, ready, registered, looping, check_keygen, prepare_keygen, register_keygen,
  open_queue, checks, prepares, registers, opens, text_before, PartyManager, begin_keygen,
  process_incoming_keygen, take_keygen, end_keygen, abandon_keygen, Step, receives, takes, ends,
  abandons, Reach, start, later, new_manager,
}
use go_mpc_wallet.Protocol.Queues.{IsSound, Reach-IsSound}

module _ (sha256 : String → ℕ) (order : List PartyId → List PartyId) where
  begin-active :
      (key : String) (nodes : List String) (this : String) (m : PartyManager) (p : PartyId)
      → lookup key m.active_keygen ≡ some p
      → begin_keygen sha256 order key nodes this m
        ≡ (err (message (◌+++◌ "DKG instance already exists for keyID " key)), m)
  unfolding begin_keygen check_keygen
  begin-active key nodes this m p active = ground arith

-- The instance is active, and no executeKeygen runs for it.
pub record IsStuck (key : String) (m : PartyManager) : Type 0 where
  pub party : PartyId
  pub holds : lookup key m.active_keygen ≡ some party
  pub idle : lookup key m.running ≡ none

abandoned :
    (key : String) (p : PartyId) (m : PartyManager)
    → IsSound m
    → lookup key m.running ≡ some (looping p)
    → IsStuck key (abandon_keygen key m)
unfolding abandon_keygen
abandoned key p m sound running = record {
  party = p;
  holds = sound.served key (looping p) p running refl;
  idle = ground (arith, lookup-erase key key m.running, str_eq_self key);
}

module _ (sha256 : String → ℕ) (order : List PartyId → List PartyId) where
  receive-frame :
      (key from bytes : String) (b : Bool) (m : PartyManager)
      → let t = (process_incoming_keygen key from bytes b m).1 in
        (t.active_keygen ≡ m.active_keygen) × (t.running ≡ m.running)
  unfolding process_incoming_keygen
  receive-frame key from bytes b m = elim (Option-cases (lookup key m.keygen_queues)) [
    | inl missing ↦ ground arith
    | inr (q, there) ↦ ground arith
  ]

  take-frame :
      (key : String) (m : PartyManager)
      → let t = (take_keygen key m).1 in
        (t.active_keygen ≡ m.active_keygen) × (t.running ≡ m.running)
  unfolding take_keygen
  take-frame key m = elim (Option-cases (lookup key m.keygen_queues)) [
    | inl missing ↦ ground arith
    | inr ([], there) ↦ ground arith
    | inr (msg ∷ rest, there) ↦ ground arith
  ]

  -- A run of a key is no run of one that is stuck.
  another :
      {key other : String} {m : PartyManager} {st : Stage}
      → IsStuck key m
      → lookup other m.running ≡ some st
      → other ≢ key
  another {key} {other} {m} {st} stuck runs same = ground (arith, stuck.idle)

  check-IsStuck :
      (key other : String) (nodes : List String) (this : String) (m : PartyManager)
      → IsStuck key m
      → IsStuck key (check_keygen other nodes this m).1
  unfolding check_keygen
  check-IsStuck key other nodes this m stuck = elim (Option-cases (lookup other m.active_keygen)) [
    | inr (p, there) ↦ record {
      party = stuck.party;
      holds = ground (arith, stuck.holds);
      idle = ground (arith, stuck.idle);
    }
    | inl missing ↦ record {
      party = stuck.party;
      holds = ground (arith, stuck.holds);
      idle = ground (
        arith,
        stuck.holds,
        stuck.idle,
        eq_iff other key,
        lookup-insert other key (cleared nodes this) m.running,
      );
    }
  ]

  prepare-IsStuck :
      (key other : String) (nodes : List String) (this : String) (m : PartyManager)
      → other ≢ key
      → IsStuck key m
      → IsStuck key (prepare_keygen sha256 order other nodes this m).1
  unfolding prepare_keygen
  prepare-IsStuck key other nodes this m differs stuck =
      let ids = sort text_before nodes in
      let p = setup_party_ids sha256 ids m.parties in
      elim (Outcome-cases (get_party_ids sha256 order ids p)) [
        | inr (e, unknown) ↦ record {
          party = stuck.party;
          holds = ground (arith, stuck.holds);
          idle = ground (arith, stuck.idle, lookup-erase other key m.running);
        }
        | inl (parties, known) ↦ elim (Option-cases (lookup this p.node_to_party)) [
          | inl foreign ↦ record {
            party = stuck.party;
            holds = ground (arith, stuck.holds);
            idle = ground (arith, stuck.idle, lookup-erase other key m.running);
          }
          | inr (own, found) ↦ record {
            party = stuck.party;
            holds = ground (arith, stuck.holds);
            idle = ground (
              arith,
              stuck.idle,
              differs,
              eq_iff other key,
              lookup-insert other key (ready own) m.running,
            );
          }
        ]
      ]

  Step-IsStuck :
      (key : String) {m t : PartyManager} → Step sha256 order m t → IsStuck key m → IsStuck key t
  unfolding end_keygen abandon_keygen register_keygen open_queue
  Step-IsStuck key {m = m} (checks other nodes this idle) stuck =
      check-IsStuck key other nodes this m stuck
  Step-IsStuck key {m = m} (prepares other nodes this runs) stuck =
      prepare-IsStuck key other nodes this m (another stuck runs) stuck
  Step-IsStuck key {m = m} (registers other p runs) stuck =
      let differs = another stuck runs in
      record {
        party = stuck.party;
        holds = ground (
          arith,
          stuck.holds,
          differs,
          eq_iff other key,
          lookup-insert other key p m.active_keygen,
        );
        idle = ground (
          arith,
          stuck.idle,
          differs,
          eq_iff other key,
          lookup-insert other key (registered p) m.running,
        );
      }
  Step-IsStuck key {m = m} (opens other p runs) stuck =
      let differs = another stuck runs in
      record {
        party = stuck.party;
        holds = stuck.holds;
        idle = ground (
          arith,
          stuck.idle,
          differs,
          eq_iff other key,
          lookup-insert other key (looping p) m.running,
        );
      }
  Step-IsStuck key {m = m} (receives other from bytes b) stuck =
      let frame = receive-frame other from bytes b m in
      record {
        party = stuck.party;
        holds = ground (arith, stuck.holds);
        idle = ground (arith, stuck.idle);
      }
  Step-IsStuck key {m = m} (takes other) stuck =
      let frame = take-frame other m in
      record {
        party = stuck.party;
        holds = ground (arith, stuck.holds);
        idle = ground (arith, stuck.idle);
      }
  Step-IsStuck key {m = m} (ends other p running) stuck = record {
    party = stuck.party;
    holds =
        ground (
          arith,
          stuck.holds,
          stuck.idle,
          eq_iff other key,
          lookup-erase other key m.active_keygen,
        );
    idle = ground (arith, stuck.idle, lookup-erase other key m.running);
  }
  Step-IsStuck key {m = m} (abandons other p running) stuck = record {
    party = stuck.party;
    holds = stuck.holds;
    idle = ground (arith, stuck.idle, lookup-erase other key m.running);
  }

  Reach-IsStuck :
      (key : String) {m t : PartyManager} → Reach sha256 order m t → IsStuck key m → IsStuck key t
  Reach-IsStuck key start stuck = stuck
  Reach-IsStuck key (later r st) stuck = Step-IsStuck key st (Reach-IsStuck key r stuck)

  -- At a node where no two executeKeygen of one key overlap, and one has come to its loop for a
  -- key and then returns because its context ends, its timer fires or a message cannot be routed:
  -- from then on, whatever happens at the node, every further executeKeygen for that key is
  -- refused, because of the instance that is still there, and changes nothing.
  pub abandon-again :
      (key : String) (p : PartyId) {m t : PartyManager}
      → Reach sha256 order new_manager m
      → lookup key m.running ≡ some (looping p)
      → Reach sha256 order (abandon_keygen key m) t
      → (nodes : List String) (this : String)
      → begin_keygen sha256 order key nodes this t
        ≡ (err (message (◌+++◌ "DKG instance already exists for keyID " key)), t)
  abandon-again key p {m} {t} r running later_on nodes this =
      let stuck =
        Reach-IsStuck key later_on (abandoned key p m (Reach-IsSound sha256 order r) running) in
      begin-active sha256 order key nodes this t stuck.party stuck.holds
