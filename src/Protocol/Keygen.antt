-- ===== src/Protocol/Keygen.antt =====
-- protocol/tss_adapter.go, executeKeygen and ProcessIncomingKeygenMessage: the key generations that run
-- at a node, and the queues of their messages. The rounds of tss-lib are not modelled: a run goes on
-- until tss-lib gives the data or an error, or until executeKeygen returns for another reason.
use go_mpc_wallet.Base.{
  ℕ, ◌≡◌, String, Bool, true, false, List, [], ◌∷◌, ◌++◌, Option, none, some, Dict, lookup, insert,
  erase, length, ltb, if◌then◌else◌, ◌+++◌,
}
use Prim.Native.String.{compare}
use Prim.Native.Nat.{Ordering}
use go_mpc_wallet.Base.Sorting.{sort}
use go_mpc_wallet.Storage.World.{Outcome, ok, err, message}
use go_mpc_wallet.Protocol.Parties.{PartyId, Parties, setup_party_ids, get_party_ids}

-- `incomingMessage`
pub record Incoming : Type 0 where
  pub msg_bytes : String
  pub from_node_id : String
  pub is_broadcast : Bool

-- Where an executeKeygen stands between its critical sections: it has found no instance for its nodes
-- and its own node; it has its party; the instance is registered; the queue is there and its loop runs.
pub data Stage : Type 0 where
  cleared : List String → String → Stage
  ready : PartyId → Stage
  registered : PartyId → Stage
  looping : PartyId → Stage

-- The part of tssPartyManager for the key generation of ECDSA. An active instance is given by its
-- own party. `running`: how far the executeKeygen of a key is that has not returned.
pub record PartyManager : Type 0 where
  pub parties : Parties
  pub active_keygen : Dict PartyId
  pub keygen_queues : Dict (List Incoming)
  pub running : Dict Stage

abbrev pub text_before : String → String → Bool
text_before a b = elim (compare a b) [ Ordering.lt ↦ true | _ ↦ false ]

abbrev pub queue_capacity : ℕ
queue_capacity = 100

abbrev pub or_empty : Option (List Incoming) → List Incoming
or_empty none = []
or_empty (some q) = q

-- The first critical section of executeKeygen: no instance may be there.
unfoldable pub check_keygen :
    String → List String → String → PartyManager → Outcome (Unit {0}) × PartyManager
check_keygen key nodes this m = elim (lookup key m.active_keygen) [
  | some _ ↦ (err (message (◌+++◌ "DKG instance already exists for keyID " key)), m)
  | none ↦ (ok tt, record m { running = insert key (cleared nodes this) m.running })
]

abbrev found_party : String → Option PartyId → PartyManager → Outcome (Unit {0}) × PartyManager
found_party key none m =
    (err (message "this node ID not found"), record m { running = erase key m.running })
found_party key (some party) m = (ok tt, record m { running = insert key (ready party) m.running })

abbrev prepared :
    String → String → Outcome (List PartyId) → PartyManager → Outcome (Unit {0}) × PartyManager
prepared key this (err e) m = (err e, record m { running = erase key m.running })
prepared key this (ok _) m = found_party key (lookup this m.parties.node_to_party) m

-- setupPartyIDs, getPartyIDs, and the party of this node. They have their own locks, but the maps of the
-- parties only grow, so that one step stands for them.
unfoldable pub prepare_keygen :
    (String → ℕ)
    → (List PartyId → List PartyId)
    → String
    → List String
    → String
    → PartyManager
    → Outcome (Unit {0}) × PartyManager
prepare_keygen sha256 order key nodes this m =
    let ids = sort text_before nodes in
    let p = setup_party_ids sha256 ids m.parties in
    prepared key this (get_party_ids sha256 order ids p) (record m { parties = p })

-- The second critical section: the instance becomes active.
unfoldable pub register_keygen : String → PartyId → PartyManager → PartyManager
register_keygen key party m = record m {
  active_keygen = insert key party m.active_keygen;
  running = insert key (registered party) m.running;
}

-- The third: the queue is made, unless there is one; the loop starts.
unfoldable pub open_queue : String → PartyId → PartyManager → PartyManager
open_queue key party m = record m {
  keygen_queues = insert key (or_empty (lookup key m.keygen_queues)) m.keygen_queues;
  running = insert key (looping party) m.running;
}

abbrev opened : String → Option Stage → PartyManager → PartyManager
opened key (some (ready party)) m = open_queue key party (register_keygen key party m)
opened key _ m = m

abbrev after_check :
    Outcome (Unit {0})
    → (PartyManager → Outcome (Unit {0}) × PartyManager)
    → String
    → PartyManager
    → Outcome (Unit {0}) × PartyManager
after_check (err e) prepare key m = (err e, m)
after_check (ok _) prepare key m =
    let (r, t) = prepare m in (r, opened key (lookup key t.running) t)

-- executeKeygen up to its loop, if nothing comes between its critical sections.
unfoldable pub begin_keygen :
    (String → ℕ)
    → (List PartyId → List PartyId)
    → String
    → List String
    → String
    → PartyManager
    → Outcome (Unit {0}) × PartyManager
begin_keygen sha256 order key nodes this m =
    let (r, t) = check_keygen key nodes this m in
    after_check r (prepare_keygen sha256 order key nodes this) key t

-- ProcessIncomingKeygenMessage, once it has waited for the queue, or in vain.
unfoldable pub process_incoming_keygen :
    String → String → String → Bool → PartyManager → Outcome (Unit {0}) × PartyManager
process_incoming_keygen key from bytes broadcast m = elim (lookup key m.keygen_queues) [
  | none ↦ (err (message (◌+++◌ "timeout waiting for keygen message queue " key)), m)
  | some q ↦
      if ltb (length q) queue_capacity
      then (
        ok tt,
        record m {
          keygen_queues =
              insert key
                (q
                  ++ (record { msg_bytes = bytes; from_node_id = from; is_broadcast = broadcast }
                      ∷ []))
                m.keygen_queues;
        },
      )
      else (err (message (◌+++◌ "keygen message queue full for session " key)), m)
]

-- What the processing loop hands to the instance of a message that it has taken: nothing, and the message
-- is lost, without an active instance or if the sender has no party identifier.
abbrev handed : Option PartyId → Option PartyId → Incoming → Option (Incoming × PartyId)
handed none sender msg = none
handed (some _) none msg = none
handed (some _) (some party) msg = some (msg, party)

abbrev take_first :
    String → List Incoming → PartyManager → Option (Incoming × PartyId) × PartyManager
take_first key [] m = (none, m)
take_first key (msg ∷ rest) m = (
  handed (lookup key m.active_keygen) (lookup msg.from_node_id m.parties.node_to_party) msg,
  record m { keygen_queues = insert key rest m.keygen_queues },
)

-- One turn of the processing loop; it blocks without a message.
unfoldable pub take_keygen : String → PartyManager → Option (Incoming × PartyId) × PartyManager
take_keygen key m = elim (lookup key m.keygen_queues) [
  | none ↦ (none, m)
  | some q ↦ take_first key q m
]

-- tss-lib gives the data or an error: the instance and the queue are removed.
unfoldable pub end_keygen : String → PartyManager → PartyManager
end_keygen key m = record m {
  active_keygen = erase key m.active_keygen;
  keygen_queues = erase key m.keygen_queues;
  running = erase key m.running;
}

-- executeKeygen returns because of the context, its timer, or a message that it cannot route.
unfoldable pub abandon_keygen : String → PartyManager → PartyManager
abandon_keygen key m = record m { running = erase key m.running }

-- The steps of all executeKeygen and of the messages, in any order. An executeKeygen for a key begins only
-- when none runs for it: StartDKG has a sync.Once for each session.
module _ (sha256 : String → ℕ) (order : List PartyId → List PartyId) where
  pub data Step (m : PartyManager) : PartyManager → Type 0 where
    checks :
        (key : String) (nodes : List String) (this : String)
        → lookup key m.running ≡ none
        → Step m (check_keygen key nodes this m).1
    prepares :
        (key : String) (nodes : List String) (this : String)
        → lookup key m.running ≡ some (cleared nodes this)
        → Step m (prepare_keygen sha256 order key nodes this m).1
    registers :
        (key : String) (p : PartyId)
        → lookup key m.running ≡ some (ready p)
        → Step m (register_keygen key p m)
    opens :
        (key : String) (p : PartyId)
        → lookup key m.running ≡ some (registered p)
        → Step m (open_queue key p m)
    receives :
        (key from bytes : String) (broadcast : Bool)
        → Step m (process_incoming_keygen key from bytes broadcast m).1
    takes : (key : String) → Step m (take_keygen key m).1
    ends :
        (key : String) (p : PartyId)
        → lookup key m.running ≡ some (looping p)
        → Step m (end_keygen key m)
    abandons :
        (key : String) (p : PartyId)
        → lookup key m.running ≡ some (looping p)
        → Step m (abandon_keygen key m)

  pub data Reach (m : PartyManager) : PartyManager → Type 0 where
    start : Reach m m
    later : {t u : PartyManager} → Reach m t → Step t u → Reach m u

-- newTSSPartyManager
abbrev pub new_manager : PartyManager
new_manager = record {
  parties = record { node_to_party = []; party_to_node = [] };
  active_keygen = [];
  keygen_queues = [];
  running = [];
}
