-- ===== src/Key/Lifecycle.antt =====
-- key/service.go: the life of a key's row, from the placeholder to its deletion.
use go_mpc_wallet.Base.{◌≡◌, ◌≢◌, String, some, lookup, arith, inl, inr, subst, sym}
use go_mpc_wallet.Storage.Types.{KeyMetadata}
use go_mpc_wallet.Storage.World.{Redis, World, ok, arrive, Outcome-cases}
use go_mpc_wallet.Storage.Postgres.{
  save_key_metadata, get_key_metadata, update_key_metadata, upserted_key,
}
use go_mpc_wallet.Storage.Laws.{
  save_key_metadata-ok, get_key_metadata-ok, get_key_metadata-state, update_key_metadata-ok,
}
use go_mpc_wallet.Storage.Rows.{lookup-update_key, lookup-update_key_ne, lookup-upsert_key}
use go_mpc_wallet.Key.Types.{CreateKeyRequest}
use go_mpc_wallet.Key.Service.{
  key_identifier, described, create_placeholder_key, get_key, delete_key, deleted,
}

module _ {R : Redis} (uuid : String) (req : CreateKeyRequest) (w : World R) where
  abbrev placeholder : KeyMetadata
  placeholder = described req (key_identifier req uuid) "pending" "Pending" w.now

  create_placeholder_key-parts :
      {k : KeyMetadata}
      → (create_placeholder_key uuid req w).0 ≡ ok k
      → (k ≡ placeholder)
        × ((save_key_metadata placeholder w).0 ≡ ok tt)
        × ((create_placeholder_key uuid req w).1 ≡ arrive (save_key_metadata placeholder w).1)
  unfolding create_placeholder_key
  create_placeholder_key-parts done = elim (Outcome-cases (save_key_metadata placeholder w).0) [
    | inl (_, saved) ↦
        ground
          (arith, get_key_metadata-state placeholder.key_id (save_key_metadata placeholder w).1)
    | inr (e, lost) ↦ ground arith
  ]

  -- A placeholder that CreatePlaceholderKey returns is Pending, has no address, and has the
  -- identifier asked for, or a drawn one if none was. Its row is then the same, except that the
  -- dates of creation and deletion of a row that was there before stay.
  pub create_placeholder_key-ok :
      {k : KeyMetadata}
      → (create_placeholder_key uuid req w).0 ≡ ok k
      → (k ≡ placeholder)
        × (lookup k.key_id (create_placeholder_key uuid req w).1.keys
            ≡ some (upserted_key k (lookup k.key_id w.keys)))
  unfolding arrive
  create_placeholder_key-ok done =
      let (shape, saved, same) = create_placeholder_key-parts done in
      ground (arith, save_key_metadata-ok placeholder w saved, lookup-upsert_key placeholder w.keys)

module _ {R : Redis} (id : String) (w : World R) where
  delete_key-parts :
      (delete_key id w).0 ≡ ok tt
      → (k : KeyMetadata) × (lookup id w.keys ≡ some k)
        × ((update_key_metadata (deleted k (arrive w).now) (arrive w)).0 ≡ ok tt)
        × ((delete_key id w).1 ≡ (update_key_metadata (deleted k (arrive w).now) (arrive w)).1)
  unfolding delete_key get_key
  delete_key-parts done = elim (Outcome-cases (get_key_metadata id w).0) [
    | inl (k, read) ↦ (
      k,
      get_key_metadata-ok id w read,
      ground (arith, get_key_metadata-state id w),
      ground (arith, get_key_metadata-state id w),
    )
    | inr (e, missing) ↦ ground arith
  ]

  -- A DeleteKey that succeeds, of a key whose row stands under its own identifier, keeps the row,
  -- with the status Deleted and the date, leaves the row of any other key as it is, and leaves the
  -- sessions alone.
  pub delete_key-ok :
      (k : KeyMetadata) (other : String)
      → lookup id w.keys ≡ some k
      → k.key_id ≡ id
      → id ≢ other
      → (delete_key id w).0 ≡ ok tt
      → (lookup id (delete_key id w).1.keys ≡ some (deleted k (arrive w).now))
        × (lookup other (delete_key id w).1.keys ≡ lookup other w.keys)
        × ((delete_key id w).1.sessions ≡ w.sessions)
  unfolding arrive
  delete_key-ok k other found named differs done =
      let (k', found', updated, same) = delete_key-parts done in
      ground (
        arith,
        update_key_metadata-ok (deleted k' (arrive w).now) (arrive w) updated,
        lookup-update_key (deleted k (arrive w).now) w.keys k
            (subst (λ i. lookup i w.keys ≡ some k) (sym named) found),
        lookup-update_key_ne (deleted k (arrive w).now) w.keys other
            (subst (λ i. i ≢ other) (sym named) differs),
      )
