-- ===== src/Protocol/Queues.antt =====
-- protocol/tss_adapter.go, executeKeygen and ProcessIncomingKeygenMessage: the queues of the messages.
use go_mpc_wallet.Base.{
  ℕ, ◌≤◌, ◌≡◌, ◌≢◌, ◌⊎◌, Option, erase, eq_iff, refl, inl, inr, String, Bool, List, [], ◌∷◌, ◌++◌,
  none, some, lookup, insert, length, ltb, lookup-insert, lookup-erase, arith, Option-cases,
  Bool-cases, length-append,
}
use go_mpc_wallet.Storage.World.{Outcome-cases}
use go_mpc_wallet.Base.Sorting.{sort}
use go_mpc_wallet.Protocol.Parties.{PartyId, setup_party_ids, get_party_ids}
use go_mpc_wallet.Protocol.Keygen.{
  Stage, cleared, ready, registered, looping, check_keygen, prepare_keygen, register_keygen,
  open_queue, checks, prepares, registers, opens, PartyManager, Incoming, process_incoming_keygen,
  take_keygen, end_keygen, abandon_keygen, Step, receives, takes, ends, abandons, Reach, start,
  later, new_manager, text_before, or_empty,
}

-- The party of an executeKeygen whose instance is registered.
abbrev pub registered_party : Stage → Option PartyId
registered_party (registered p) = some p
registered_party (looping p) = some p
registered_party _ = none

-- No queue is longer than its channel; a run that has come to its loop, or before it to its queue, has
-- its instance; and an instance without a queue is one whose executeKeygen is about to make it.
pub record IsSound (m : PartyManager) : Type 0 where
  pub bounded :
      (key : String) (q : List Incoming) → lookup key m.keygen_queues ≡ some q → length q ≤ 100
  pub served :
      (key : String) (st : Stage) (p : PartyId)
      → lookup key m.running ≡ some st
      → registered_party st ≡ some p
      → lookup key m.active_keygen ≡ some p
  pub queued :
      (key : String) (p : PartyId)
      → lookup key m.keygen_queues ≡ none
      → lookup key m.active_keygen ≡ some p
      → lookup key m.running ≡ some (registered p)

bounded_or_empty :
    (key : String) (m : PartyManager)
    → IsSound m
    → length (or_empty (lookup key m.keygen_queues)) ≤ 100
bounded_or_empty key m sound = elim (Option-cases (lookup key m.keygen_queues)) [
  | inl missing ↦ ground arith
  | inr (q, there) ↦ ground (arith, sound.bounded key q there)
]

-- A step that changes no more than the parties.
same-IsSound :
    {m t : PartyManager}
    → t.active_keygen ≡ m.active_keygen
    → t.keygen_queues ≡ m.keygen_queues
    → t.running ≡ m.running
    → IsSound m
    → IsSound t
same-IsSound a q r sound = record {
  bounded = λ key l found. sound.bounded key l (ground arith);
  served = λ key st p runs is. ground (arith, sound.served key st p (ground arith) is);
  queued = λ key p missing there. ground (arith, sound.queued key p (ground arith) (ground arith));
}

-- A step that puts a run that is not registered at another place, or ends it.
moved-IsSound :
    (other : String) (st : Stage) {m t : PartyManager}
    → registered_party st ≡ none
    → ((p : PartyId) → lookup other m.running ≢ some (registered p))
    → t.active_keygen ≡ m.active_keygen
    → t.keygen_queues ≡ m.keygen_queues
    → (t.running ≡ insert other st m.running) ⊎ (t.running ≡ erase other m.running)
    → IsSound m
    → IsSound t
moved-IsSound other st {m} {t} fresh unregistered a q (inl r) sound = record {
  bounded = λ key l found. sound.bounded key l (ground arith);
  served = λ key st' p runs is.
      ground (arith, lookup-insert other key st m.running, sound.served key st' p, is);
  queued = λ key p missing there. ground (
    arith,
    eq_iff other key,
    lookup-insert other key st m.running,
    sound.queued key p,
    unregistered p,
  );
}
moved-IsSound other st {m} {t} fresh unregistered a q (inr r) sound = record {
  bounded = λ key l found. sound.bounded key l (ground arith);
  served = λ key st' p runs is.
      ground (arith, lookup-erase other key m.running, sound.served key st' p, is);
  queued = λ key p missing there. ground (
    arith,
    eq_iff other key,
    lookup-erase other key m.running,
    sound.queued key p,
    unregistered p,
  );
}

check-IsSound :
    (key : String) (nodes : List String) (this : String) (m : PartyManager)
    → lookup key m.running ≡ none
    → IsSound m
    → IsSound (check_keygen key nodes this m).1
unfolding check_keygen
check-IsSound key nodes this m idle sound = elim (Option-cases (lookup key m.active_keygen)) [
  | inr (p, there) ↦ same-IsSound (ground arith) (ground arith) (ground arith) sound
  | inl missing ↦
      moved-IsSound key (cleared nodes this) refl (λ p runs. ground arith) (ground arith)
        (ground arith) (inl (ground arith)) sound
]

register-IsSound :
    (key : String) (p : PartyId) (m : PartyManager)
    → lookup key m.running ≡ some (ready p)
    → IsSound m
    → IsSound (register_keygen key p m)
unfolding register_keygen
register-IsSound key p m runs sound = record {
  bounded = sound.bounded;
  served = λ other st q at is. ground (
    arith,
    lookup-insert key other (registered p) m.running,
    lookup-insert key other p m.active_keygen,
    sound.served other st q,
    is,
  );
  queued = λ other q missing there. ground (
    arith,
    lookup-insert key other (registered p) m.running,
    lookup-insert key other p m.active_keygen,
    sound.queued other q,
  );
}

open-IsSound :
    (key : String) (p : PartyId) (m : PartyManager)
    → lookup key m.running ≡ some (registered p)
    → IsSound m
    → IsSound (open_queue key p m)
unfolding open_queue
open-IsSound key p m runs sound = record {
  bounded = λ other l found. ground (
    arith,
    bounded_or_empty key m sound,
    sound.bounded other l,
    lookup-insert key other (or_empty (lookup key m.keygen_queues)) m.keygen_queues,
  );
  served = λ other st q at is. ground (
    arith,
    eq_iff key other,
    lookup-insert key other (looping p) m.running,
    sound.served other st q,
    sound.served key (registered p) p runs refl,
    is,
  );
  queued = λ other q missing there. ground (
    arith,
    lookup-insert key other (looping p) m.running,
    lookup-insert key other (or_empty (lookup key m.keygen_queues)) m.keygen_queues,
    sound.queued other q,
  );
}

-- A step that only replaces one queue by one that is no longer than the channel.
requeued-IsSound :
    (other : String) (l : List Incoming) {m t : PartyManager}
    → length l ≤ 100
    → t.active_keygen ≡ m.active_keygen
    → t.running ≡ m.running
    → t.keygen_queues ≡ insert other l m.keygen_queues
    → IsSound m
    → IsSound t
requeued-IsSound other l {m} short a r q sound = record {
  bounded =
      λ key k found. ground (arith, sound.bounded key k, lookup-insert other key l m.keygen_queues);
  served = λ key st p at is. ground (arith, sound.served key st p, is);
  queued = λ key p missing there.
      ground (arith, sound.queued key p, lookup-insert other key l m.keygen_queues);
}

receive-IsSound :
    (key from bytes : String) (b : Bool) (m : PartyManager)
    → IsSound m
    → IsSound (process_incoming_keygen key from bytes b m).1
unfolding process_incoming_keygen
receive-IsSound key from bytes b m sound = elim (Option-cases (lookup key m.keygen_queues)) [
  | inl missing ↦ same-IsSound (ground arith) (ground arith) (ground arith) sound
  | inr (q, there) ↦ elim (Bool-cases (ltb (length q) 100)) [
    | inr full ↦ same-IsSound (ground arith) (ground arith) (ground arith) sound
    | inl room ↦
        let msg : Incoming = record { msg_bytes = bytes; from_node_id = from; is_broadcast = b } in
        requeued-IsSound key (q ++ (msg ∷ [])) (ground (arith, length-append q (msg ∷ [])))
          (ground arith) (ground arith) (ground arith) sound
  ]
]

take-IsSound : (key : String) (m : PartyManager) → IsSound m → IsSound (take_keygen key m).1
unfolding take_keygen
take-IsSound key m sound = elim (Option-cases (lookup key m.keygen_queues)) [
  | inl missing ↦ same-IsSound (ground arith) (ground arith) (ground arith) sound
  | inr ([], there) ↦ same-IsSound (ground arith) (ground arith) (ground arith) sound
  | inr (msg ∷ rest, there) ↦
      requeued-IsSound key rest (ground (arith, sound.bounded key (msg ∷ rest))) (ground arith)
        (ground arith) (ground arith) sound
]

end-IsSound : (key : String) (m : PartyManager) → IsSound m → IsSound (end_keygen key m)
unfolding end_keygen
end-IsSound key m sound = record {
  bounded = λ other l found.
      ground (arith, sound.bounded other l, lookup-erase key other m.keygen_queues);
  served = λ other st p at is. ground (
    arith,
    sound.served other st p,
    lookup-erase key other m.running,
    lookup-erase key other m.active_keygen,
    is,
  );
  queued = λ other p missing there. ground (
    arith,
    sound.queued other p,
    lookup-erase key other m.running,
    lookup-erase key other m.keygen_queues,
    lookup-erase key other m.active_keygen,
  );
}

abandon-IsSound :
    (key : String) (p : PartyId) (m : PartyManager)
    → lookup key m.running ≡ some (looping p)
    → IsSound m
    → IsSound (abandon_keygen key m)
unfolding abandon_keygen
abandon-IsSound key p m runs sound =
    moved-IsSound key (cleared [] "") refl (λ q at. ground arith) refl refl (inr refl) sound

module _ (sha256 : String → ℕ) (order : List PartyId → List PartyId) where
  prepare-IsSound :
      (key : String) (nodes : List String) (this : String) (m : PartyManager)
      → lookup key m.running ≡ some (cleared nodes this)
      → IsSound m
      → IsSound (prepare_keygen sha256 order key nodes this m).1
  unfolding prepare_keygen
  prepare-IsSound key nodes this m runs sound =
      let ids = sort text_before nodes in
      let p = setup_party_ids sha256 ids m.parties in
      elim (Outcome-cases (get_party_ids sha256 order ids p)) [
        | inr (e, unknown) ↦
            moved-IsSound key (cleared [] "") refl (λ q at. ground arith) (ground arith)
              (ground arith) (inr (ground arith)) sound
        | inl (parties, known) ↦ elim (Option-cases (lookup this p.node_to_party)) [
          | inl foreign ↦
              moved-IsSound key (cleared [] "") refl (λ q at. ground arith) (ground arith)
                (ground arith) (inr (ground arith)) sound
          | inr (own, found) ↦
              moved-IsSound key (ready own) refl (λ q at. ground arith) (ground arith)
                (ground arith) (inl (ground arith)) sound
        ]
      ]

  Step-IsSound : {m t : PartyManager} → Step sha256 order m t → IsSound m → IsSound t
  Step-IsSound {m} (checks key nodes this idle) sound = check-IsSound key nodes this m idle sound
  Step-IsSound {m} (prepares key nodes this runs) sound =
      prepare-IsSound key nodes this m runs sound
  Step-IsSound {m} (registers key p runs) sound = register-IsSound key p m runs sound
  Step-IsSound {m} (opens key p runs) sound = open-IsSound key p m runs sound
  Step-IsSound {m} (receives key from bytes b) sound = receive-IsSound key from bytes b m sound
  Step-IsSound {m} (takes key) sound = take-IsSound key m sound
  Step-IsSound {m} (ends key p running) sound = end-IsSound key m sound
  Step-IsSound {m} (abandons key p running) sound = abandon-IsSound key p m running sound

  -- From a new party manager on, whatever the executeKeygen of any keys do, step by step between
  -- their critical sections, and whatever messages come, but with no two executeKeygen of one key
  -- at the same time: no queue ever holds more than 100 messages; an executeKeygen that has
  -- registered its instance, and has not returned, has it still; and an instance without a queue
  -- is one whose executeKeygen has registered it and has yet to make the queue.
  pub Reach-IsSound : {m : PartyManager} → Reach sha256 order new_manager m → IsSound m
  unfolding lookup
  Reach-IsSound start = record {
    bounded = λ key l found. ground arith;
    served = λ key st p at is. ground arith;
    queued = λ key p missing there. ground arith;
  }
  Reach-IsSound (later r st) = Step-IsSound st (Reach-IsSound r)
