-- ===== src/Protocol/Restart.antt =====
-- protocol/gg18.go and protocol/gg20.go: signing after the process was started anew, which empties the
-- records in memory.
use go_mpc_wallet.Base.{
  ℕ, ◌≡◌, refl, sym, ap, ◌+++◌, subst, inl, inr, String, true, List, [], ◌∷◌, some, lookup, insert,
  str_eq_self, lookup-insert, arith, Option-cases,
}
use go_mpc_wallet.Storage.World.{ok, Error, message, wrap, Outcome-cases}
use go_mpc_wallet.Signing.Types.{PublicKey}
use go_mpc_wallet.Signing.Signer.{EngineRequest}
use go_mpc_wallet.Protocol.Types.{KeyGenRequest}
use go_mpc_wallet.Protocol.Requests.{
  validate_gg18, validate_sign_request, normalize_node_ids, resolve_message_payload,
}
use go_mpc_wallet.Protocol.Encoding.{
  KeyShare, SaveData, convert_tss_key_data, convert_tss_signature, compressed_key, public_key_of,
  padded_share,
}
use go_mpc_wallet.Protocol.Run.{returns, fails, Run, give, ◌>>◌, Result-cases}
use go_mpc_wallet.Protocol.Gg18.{
  Tss, Memory, KeyRecord, KeyGenReply, SigningOptions, generate_key_share, threshold_sign_gg18,
  threshold_sign_gg20, sign_with_record, load_record, default_signing_options, persist,
  save_key_record, finish_generation, loaded_record, key_or_drawn,
}

convert-parts :
    (key_id this : String) (d : SaveData) {share : KeyShare} {key : PublicKey}
    → convert_tss_key_data key_id d this ≡ some (ok (share, key))
    → (x : ℕ) × (y : ℕ) × (d.public_point ≡ some (x, y))
      × (key ≡ public_key_of (compressed_key x y))
unfolding convert_tss_key_data
convert-parts key_id this d {share} {key} done = elim (Option-cases d.public_point) [
  | inl missing ↦ ground arith
  | inr ((x, y), point) ↦ elim (Option-cases (padded_share d.xi)) [
    | inl wide ↦ ground arith
    | inr (padded, fits) ↦ (x, y, point, ground arith)
  ]
]

module _ {E : Tss} where
  persist-parts :
      (id this : String) (d : SaveData) (s : Memory E)
      → (persist true id this d s).0 ≡ returns tt
      → (bytes : List ℕ) × (E.encode d ≡ ok bytes)
        × ((E.keep_key_data id this bytes s.below).0 ≡ ok tt)
        × ((persist true id this d s).1
            ≡ record s { below = (E.keep_key_data id this bytes s.below).1 })
  unfolding persist
  persist-parts id this d s done = elim (Outcome-cases (E.encode d)) [
    | inr (e, lost) ↦ ground arith
    | inl (bytes, encoded) ↦ elim (Outcome-cases (E.keep_key_data id this bytes s.below).0) [
      | inr (e, lost) ↦ ground arith
      | inl (_, stored) ↦ (bytes, encoded, ground arith, ground arith)
    ]
  ]

  abbrev persist_and_reply :
      String → String → SaveData → KeyShare × PublicKey → Run (Memory E) KeyGenReply
  persist_and_reply id this d made = do
    persist true id this d
    give (record { key_shares = (this, made.0) ∷ []; public_key = made.1 })

  persisted :
      (d : SaveData) (id this : String) (made : KeyShare × PublicKey) (u : Memory E)
      {reply : KeyGenReply}
      → (persist_and_reply id this d made u).0 ≡ returns reply
      → ((persist true id this d u).0 ≡ returns tt)
        × ((persist_and_reply id this d made u).1 ≡ (persist true id this d u).1)
  persisted d id this made u done = elim (Result-cases (persist true id this d u).0) [
    | inl (_, fine) ↦ (fine, ground arith)
    | inr other ↦ ground arith
  ]

  -- What a successful key generation leaves behind.
  abbrev Generated : String → String → Memory E → Type 0
  Generated id this s =
      (d : SaveData) × (x : ℕ) × (y : ℕ) × (r : KeyRecord) × (bytes : List ℕ) × (t : E.T)
      × (d.public_point ≡ some (x, y))
      × (lookup id s.key_records ≡ some r)
      × (r.key_data ≡ some d)
      × (r.public_key ≡ public_key_of (compressed_key x y))
      × (E.encode d ≡ ok bytes)
      × ((E.keep_key_data id this bytes t).0 ≡ ok tt)
      × (s.below ≡ (E.keep_key_data id this bytes t).1)

  finish-Generated :
      (this id : String) (req : KeyGenRequest) (ids : List String) (d : SaveData)
      (made : KeyShare × PublicKey) (x y : ℕ) (s : Memory E) {reply : KeyGenReply}
      → d.public_point ≡ some (x, y)
      → made.1 ≡ public_key_of (compressed_key x y)
      → (finish_generation true this id req ids d made s).0 ≡ returns reply
      → Generated id this (finish_generation true this id req ids d made s).1
  unfolding finish_generation save_key_record
  finish-Generated this id req ids d made x y s {reply} point shape done =
      let r : KeyRecord = record {
        key_data = some d;
        public_key = made.1;
        threshold = req.threshold;
        total_nodes = req.total_nodes;
        node_ids = ids;
      } in
      let u : Memory E = record s { key_records = insert id r s.key_records } in
      let (fine, same) = persisted d id this made u done in
      let (bytes, encoded, stored, left) = persist-parts id this d u fine in
      (
        d,
        x,
        y,
        r,
        bytes,
        s.below,
        point,
        ground (arith, lookup-insert id id r s.key_records, str_eq_self id),
        refl,
        shape,
        encoded,
        stored,
        ground arith,
      )

  generates :
      (this : String) (nano : ℕ) (req : KeyGenRequest) (s : Memory E) (ids : List String)
      (d : SaveData) (made : KeyShare × PublicKey)
      → validate_gg18 req ≡ ok tt
      → normalize_node_ids req.node_ids req.total_nodes ≡ ok ids
      → (E.execute_keygen (key_or_drawn nano req.key_id) ids req.threshold this s.below).0 ≡ ok d
      → convert_tss_key_data (key_or_drawn nano req.key_id) d this ≡ some (ok made)
      → generate_key_share true this nano req s
        ≡ finish_generation true this (key_or_drawn nano req.key_id) req ids d made (record s {
          below =
              (E.execute_keygen (key_or_drawn nano req.key_id) ids req.threshold this s.below).1;
        })
  unfolding generate_key_share
  generates this nano req s ids d made valid normal ran converted = ground arith

  generate-Generated :
      (this : String) (nano : ℕ) (req : KeyGenRequest) (s : Memory E) {reply : KeyGenReply}
      → (generate_key_share true this nano req s).0 ≡ returns reply
      → Generated (key_or_drawn nano req.key_id) this (generate_key_share true this nano req s).1
  unfolding generate_key_share
  generate-Generated this nano req s {reply} done = elim (Outcome-cases (validate_gg18 req)) [
    | inr (e, bad) ↦ ground arith
    | inl (_, valid) ↦ elim (Outcome-cases (normalize_node_ids req.node_ids req.total_nodes)) [
      | inr (e, bad) ↦ ground arith
      | inl (ids, normal) ↦
          let id = key_or_drawn nano req.key_id in
          let ran = E.execute_keygen id ids req.threshold this s.below in
          elim (Outcome-cases ran.0) [
            | inr (e, bad) ↦ ground arith
            | inl (d, ran_well) ↦ elim (Option-cases (convert_tss_key_data id d this)) [
              | inl wide ↦ ground arith
              | inr (o, converted) ↦ elim (Outcome-cases o) [
                | inr (e, bad) ↦ ground arith
                | inl (made, fine) ↦
                    let (x, y, point, shape) =
                      convert-parts id this d {share = made.0} {key = made.1} (ground arith) in
                    let same =
                      generates this nano req s ids d made (ground arith) normal ran_well
                        (ground arith) in
                    subst (λ u. Generated id this u.1) (sym same)
                      (finish-Generated this id req ids d made x y (record s { below = ran.1 })
                        {reply = reply} point shape (subst (λ u. u.0 ≡ returns reply) same done))
              ]
            ]
          ]
    ]
  ]

  -- A signing depends on the data and the key of the record, not on the other records.
  sign_with_record-frame :
      (options : SigningOptions) (text this session : String) (q : EngineRequest) (r r' : KeyRecord)
      (d : SaveData) (u v : Memory E)
      → r.key_data ≡ some d
      → r'.key_data ≡ some d
      → r.public_key ≡ r'.public_key
      → u.below ≡ v.below
      → ((sign_with_record options text this session q r u).0
          ≡ (sign_with_record options text this session q r' v).0)
        × ((sign_with_record options text this session q r u).1.below
            ≡ (sign_with_record options text this session q r' v).1.below)
  unfolding sign_with_record
  sign_with_record-frame options text this session q r r' d u v held held' key same =
      elim (Outcome-cases (resolve_message_payload q)) [
        | inr (e, bad) ↦ ground arith
        | inl (msg, plain) ↦
            let ran = E.execute_signing session q.key_id msg q.node_ids this d options u.below in
            elim (Outcome-cases ran.0) [
              | inr (e, bad) ↦ ground arith
              | inl (raw, made) ↦ elim (Outcome-cases (convert_tss_signature raw)) [
                | inr (e, bad) ↦ ground arith
                | inl (sig, fine) ↦ ground arith
              ]
            ]
      ]

  abbrev pub restarted : Memory E → Memory E
  restarted s = record { key_records = []; below = E.restart s.below }

  -- A new process that still has the records.
  abbrev pub remembering : Memory E → Memory E
  remembering s = record s { below = E.restart s.below }

  module _ (coded : (d : SaveData) (bytes : List ℕ) → E.encode d ≡ ok bytes → E.decode bytes ≡ ok d)
      (kept : (id this : String) (bytes : List ℕ) (t : E.T)
        → (E.keep_key_data id this bytes t).0 ≡ ok tt
        → E.read_key_data id this (E.restart (E.keep_key_data id this bytes t).1)
          ≡ (ok bytes, E.restart (E.keep_key_data id this bytes t).1)) where
    load-Generated :
        (id this : String) (d : SaveData) (x y : ℕ) (bytes : List ℕ) (t : E.T) (s : Memory E)
        → d.public_point ≡ some (x, y)
        → E.encode d ≡ ok bytes
        → (E.keep_key_data id this bytes t).0 ≡ ok tt
        → s.below ≡ E.restart (E.keep_key_data id this bytes t).1
        → ((load_record true id this s).0 ≡ returns (loaded_record d (x, y)))
          × ((load_record true id this s).1.below ≡ s.below)
    unfolding load_record save_key_record
    load-Generated id this d x y bytes t s point encoded stored left =
        ground (arith, coded d bytes encoded, kept id this bytes t stored)

    signs_alike :
        (this session : String) (q : EngineRequest) (u : Memory E)
        → Generated q.key_id this u
        → ((threshold_sign_gg18 true this session q (restarted u)).0
            ≡ (threshold_sign_gg18 true this session q (remembering u)).0)
          × ((threshold_sign_gg18 true this session q (restarted u)).1.below
              ≡ (threshold_sign_gg18 true this session q (remembering u)).1.below)
    unfolding threshold_sign_gg18 lookup
    signs_alike this session q u
          (d, x, y, r, bytes, t, point, held, saved, key, encoded, stored, left) =
        let (found, same) =
          load-Generated q.key_id this d x y bytes t (restarted u) point encoded stored
            (ap E.restart left) in
        elim (Outcome-cases (validate_sign_request q)) [
          | inr (e, bad) ↦ ground arith
          | inl (_, valid) ↦ ground (
            arith,
            sign_with_record-frame default_signing_options "execute tss-lib signing" this session q
                (loaded_record d (x, y)) r d (load_record true q.key_id this (restarted u)).1
                (remembering u) refl saved (sym key) same,
          )
        ]

    -- Where gob decodes what it encoded, and a new process reads from the key files what was
    -- stored: after a successful key generation of GG18, a signing with that key by a new process,
    -- which has no records and an empty party manager, gives the same result, and runs tss-lib to
    -- the same end, as it would if the new process still had the records in memory.
    pub sign-restarted :
        (this : String) (nano : ℕ) (req : KeyGenRequest) (s : Memory E) {reply : KeyGenReply}
        → (generate_key_share true this nano req s).0 ≡ returns reply
        → (session : String) (q : EngineRequest) → q.key_id ≡ key_or_drawn nano req.key_id
        → let u = (generate_key_share true this nano req s).1 in
          ((threshold_sign_gg18 true this session q (restarted u)).0
            ≡ (threshold_sign_gg18 true this session q (remembering u)).0)
          × ((threshold_sign_gg18 true this session q (restarted u)).1.below
              ≡ (threshold_sign_gg18 true this session q (remembering u)).1.below)
    sign-restarted this nano req s {reply} done session q same =
        signs_alike this session q (generate_key_share true this nano req s).1 (
          subst (λ id. Generated id this (generate_key_share true this nano req s).1) (sym same)
            (generate-Generated this nano req s {reply = reply} done))

  -- After the process was started anew, GG20 signs with no key: it always returns an error, and
  -- calls neither the storage nor tss-lib.
  pub gg20-restarted :
      (this session : String) (q : EngineRequest) (u : Memory E)
      → ((e : Error) × ((threshold_sign_gg20 this session q (restarted u)).0 ≡ fails e))
        × ((threshold_sign_gg20 this session q (restarted u)).1 ≡ restarted u)
  unfolding threshold_sign_gg20 lookup
  gg20-restarted this session q u = elim (Outcome-cases (validate_sign_request q)) [
    | inr (e, bad) ↦ ((wrap "invalid sign request" e, ground arith), ground arith)
    | inl (_, valid) ↦
        ((message (◌+++◌ "key " (◌+++◌ q.key_id " not found")), ground arith), ground arith)
  ]
