-- ===== src/Key/Promotion.antt =====
-- key/service.go, CreateKeyWithExistingMetadata: a placeholder becomes a key.
use go_mpc_wallet.Base.{
  ℕ, ◌≡◌, ◌≢◌, refl, String, some, List, [], ◌∷◌, Dict, lookup, arith, inl, inr, str_eq, eq_iff,
  sym, Bool-cases, ◌∙◌, ap, ◌+++◌,
}
use go_mpc_wallet.Storage.Types.{KeyMetadata}
use go_mpc_wallet.Storage.World.{Redis, World, ok, err, Error, message, wrap, arrive, Outcome-cases}
use go_mpc_wallet.Storage.Postgres.{get_key_metadata, update_key_metadata}
use go_mpc_wallet.Storage.Laws.{get_key_metadata-ok, get_key_metadata-state, update_key_metadata-ok}
use go_mpc_wallet.Storage.Rows.{lookup-update_key}
use go_mpc_wallet.Key.Types.{CreateKeyRequest, KeyGenResponse, Adapters}
use go_mpc_wallet.Key.Service.{
  Backend, promoted, promote, run_generation, store_shares, create_key_with_existing_metadata,
}

-- Neither the generation of a key nor the store of its shares touches the table of the keys.
pub record LeavesKeys {R : Redis} (b : Backend R) : Type 0 where
  pub generating :
      (i : String) (r : CreateKeyRequest) (w : World R) → (b.generate i r w).1.keys ≡ w.keys
  pub storing :
      (i n : String) (share : List ℕ) (w : World R)
      → (b.store_key_share i n share w).1.keys ≡ w.keys

arrive-keys : {R : Redis} (w : World R) → (arrive w).keys ≡ w.keys
unfolding arrive
arrive-keys w = refl

store_shares-keys :
    {R : Redis} (b : Backend R) (i : String) (shares : Dict (List ℕ)) (w : World R)
    → LeavesKeys b
    → (store_shares b i shares w).1.keys ≡ w.keys
unfolding store_shares
store_shares-keys b i [] w leaves = refl
store_shares-keys b i ((n, share) ∷ rest) w leaves =
    elim (Outcome-cases (b.store_key_share i n share w).0) [
      | inl (_, stored) ↦ ground (
        arith,
        leaves.storing i n share w,
        store_shares-keys b i rest (b.store_key_share i n share w).1 leaves,
      )
      | inr (e, lost) ↦ ground (arith, leaves.storing i n share w)
    ]

module _ {R : Redis} (b : Backend R) (ad : Adapters) (req : CreateKeyRequest) (old : KeyMetadata)
    (w : World R) where
  -- The last step, on the state that the generation and the store of the shares leave.
  updated-Active :
      (response : KeyGenResponse) (u : World R)
      → u.keys ≡ w.keys
      → lookup req.key_id w.keys ≡ some old
      → (update_key_metadata (promoted ad req old response u.now) u).0 ≡ ok tt
      → lookup req.key_id (update_key_metadata (promoted ad req old response u.now) u).1.keys
        ≡ some (promoted ad req old response u.now)
  unfolding arrive
  updated-Active response u same found done = ground (
    arith,
    update_key_metadata-ok (promoted ad req old response u.now) u done,
    lookup-update_key (promoted ad req old response u.now) w.keys old found,
  )

  run_generation-ok :
      {k : KeyMetadata}
      → LeavesKeys b
      → lookup req.key_id w.keys ≡ some old
      → (run_generation b ad req old w).0 ≡ ok k
      → (k.status ≡ "Active")
        × (k.key_id ≡ req.key_id)
        × (k.created_at ≡ old.created_at)
        × (lookup req.key_id (run_generation b ad req old w).1.keys ≡ some k)
  unfolding run_generation
  run_generation-ok {k} leaves found done = elim (Outcome-cases (b.generate req.key_id req w).0) [
    | inl (response, generated) ↦
        (let v = (b.generate req.key_id req w).1 in
          elim (Outcome-cases (store_shares b req.key_id response.key_shares v).0) [
            | inl (_, stored) ↦
                (let u = (store_shares b req.key_id response.key_shares v).1 in
                  elim (Outcome-cases
                    (update_key_metadata (promoted ad req old response u.now) u).0) [
                      | inl (_, updated) ↦ ground (
                        arith,
                        leaves.generating req.key_id req w,
                        store_shares-keys b req.key_id response.key_shares v leaves,
                        updated-Active response u
                            (store_shares-keys b req.key_id response.key_shares v leaves
                              ∙ leaves.generating req.key_id req w)
                            found updated,
                      )
                      | inr (e, lost) ↦ ground arith
                    ])
            | inr (e, lost) ↦ ground arith
          ])
    | inr (e, failed) ↦ ground arith
  ]

module _ {R : Redis} (b : Backend R) (ad : Adapters) (req : CreateKeyRequest) (w : World R) where
  promote-ok :
      (old : KeyMetadata) {k : KeyMetadata}
      → LeavesKeys b
      → lookup req.key_id w.keys ≡ some old
      → (promote b ad req old w).0 ≡ ok k
      → (old.status ≡ "Pending")
        × (k.status ≡ "Active")
        × (k.key_id ≡ req.key_id)
        × (k.created_at ≡ old.created_at)
        × (lookup req.key_id (promote b ad req old w).1.keys ≡ some k)
  unfolding promote
  promote-ok old {k} leaves found done =
      ground
        (arith, eq_iff old.status "Pending", run_generation-ok b ad req old w {k = k} leaves found)

module _ {R : Redis} (b : Backend R) (ad : Adapters) (req : CreateKeyRequest) (w : World R) where
  existing-parts :
      {k : KeyMetadata}
      → (create_key_with_existing_metadata b ad req w).0 ≡ ok k
      → (old : KeyMetadata) × (req.key_id ≢ "")
        × (lookup req.key_id w.keys ≡ some old)
        × (create_key_with_existing_metadata b ad req w ≡ promote b ad req old (arrive w))
  unfolding create_key_with_existing_metadata
  existing-parts done = elim (Outcome-cases (get_key_metadata req.key_id w).0) [
    | inl (old, read) ↦ (
      old,
      ground (arith, eq_iff req.key_id ""),
      get_key_metadata-ok req.key_id w read,
      ground (arith, eq_iff req.key_id "", get_key_metadata-state req.key_id w),
    )
    | inr (e, missing) ↦ ground (arith, eq_iff req.key_id "")
  ]

  -- Provided that key generation and the store of shares leave the table of the keys alone: a key
  -- that CreateKeyWithExistingMetadata returns is Active, has the identifier asked for, and is
  -- what its row then holds, but for the time of the update, of which the row keeps only
  -- microseconds. The row was there before, with status Pending and the same time of creation.
  pub create_key_with_existing_metadata-ok :
      {k : KeyMetadata}
      → LeavesKeys b
      → (create_key_with_existing_metadata b ad req w).0 ≡ ok k
      → (old : KeyMetadata) × (lookup req.key_id w.keys ≡ some old)
        × (old.status ≡ "Pending")
        × (k.status ≡ "Active")
        × (k.key_id ≡ req.key_id)
        × (k.created_at ≡ old.created_at)
        × ((row : KeyMetadata) × (lookup req.key_id
                (create_key_with_existing_metadata b ad req w).1.keys
              ≡ some row)
            × (record row { updated_at = k.updated_at } ≡ k))
  create_key_with_existing_metadata-ok {k} leaves done =
      let (old, named, found, same) = existing-parts done in
      let kept = arrive-keys w in
      let (pending, active, name, age, row) =
        promote-ok b ad req (arrive w) old {k = k} leaves
          (ap (λ t. lookup req.key_id t) kept ∙ found) (sym (ap (λ x. x.0) same) ∙ done) in
      (
        old,
        found,
        pending,
        active,
        name,
        age,
        (k, ap (λ x. lookup req.key_id x.1.keys) same ∙ row, refl),
      )

  -- Where the row of the key asked for has another status than Pending,
  -- CreateKeyWithExistingMetadata returns an error, and the table of the keys stays as it is.
  pub create_key_with_existing_metadata-refused :
      (old : KeyMetadata)
      → lookup req.key_id w.keys ≡ some old
      → old.status ≢ "Pending"
      → (e : Error) × ((create_key_with_existing_metadata b ad req w).0 ≡ err e)
        × ((create_key_with_existing_metadata b ad req w).1.keys ≡ w.keys)
  unfolding create_key_with_existing_metadata promote arrive
  create_key_with_existing_metadata-refused old found moved =
      elim (Bool-cases (str_eq req.key_id "")) [
        | inl blank ↦ (
          message "keyID is required for CreateKeyWithExistingMetadata",
          ground arith,
          ground arith,
        )
        | inr named ↦ (elim (Outcome-cases (get_key_metadata req.key_id w).0) [
          | inl (k, read) ↦ (
            message (◌+++◌ "key " (◌+++◌ req.key_id " is not in Pending status")),
            ground (arith, get_key_metadata-ok req.key_id w read, eq_iff k.status "Pending"),
            ground (
              arith,
              get_key_metadata-ok req.key_id w read,
              eq_iff k.status "Pending",
              get_key_metadata-state req.key_id w,
            ),
          )
          | inr (e, missing) ↦ (
            wrap "failed to get existing key metadata" e,
            ground arith,
            ground (arith, get_key_metadata-state req.key_id w),
          )
        ])
      ]
