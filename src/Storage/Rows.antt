-- ===== src/Storage/Rows.antt =====
-- postgresql.go: the row of a key after an upsert and after an update.
use go_mpc_wallet.Base.{
  ◌≡◌, ◌≢◌, String, some, Dict, lookup, arith, lookup-insert, str_eq_self, eq_iff, inl, inr,
  Option-cases,
}
use go_mpc_wallet.Storage.Types.{KeyMetadata}
use go_mpc_wallet.Storage.Postgres.{update_key, upsert_key, upserted_key}

module _ (k : KeyMetadata) (rows : Dict KeyMetadata) where
  -- An update keeps the time of creation.
  pub lookup-update_key :
      (old : KeyMetadata)
      → lookup k.key_id rows ≡ some old
      → lookup k.key_id (update_key k rows) ≡ some (record k { created_at = old.created_at })
  unfolding update_key
  lookup-update_key old h = ground (
    arith,
    str_eq_self k.key_id,
    lookup-insert k.key_id k.key_id (record k { created_at = old.created_at }) rows,
  )

  -- An upsert keeps the times of creation and deletion of a row that is there.
  pub lookup-upsert_key :
      lookup k.key_id (upsert_key k rows) ≡ some (upserted_key k (lookup k.key_id rows))
  unfolding upsert_key
  lookup-upsert_key = ground (
    arith,
    str_eq_self k.key_id,
    lookup-insert k.key_id k.key_id (upserted_key k (lookup k.key_id rows)) rows,
  )

  pub lookup-update_key_ne :
      (id : String) → k.key_id ≢ id → lookup id (update_key k rows) ≡ lookup id rows
  unfolding update_key
  lookup-update_key_ne id h = elim (Option-cases (lookup k.key_id rows)) [
    | inl missing ↦ ground arith
    | inr (old, found) ↦ ground (
      arith,
      eq_iff k.key_id id,
      lookup-insert k.key_id id (record k { created_at = old.created_at }) rows,
    )
  ]
