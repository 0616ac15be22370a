-- ===== src/Key/Address.antt =====
-- key/service.go, GenerateAddress: the address of a key, and what is kept of it in the key's row.
use go_mpc_wallet.Base.{
  ◌≡◌, ◌≢◌, refl, String, some, [], lookup, arith, inl, inr, ◌⊎◌, str_eq, eq_iff, Bool-cases,
}
use go_mpc_wallet.Base.Hex.{decode_string}
use go_mpc_wallet.Storage.Types.{KeyMetadata}
use go_mpc_wallet.Storage.World.{Redis, World, ok, arrive, Outcome-cases}
use go_mpc_wallet.Storage.Postgres.{get_key_metadata, update_key_metadata}
use go_mpc_wallet.Storage.Laws.{
  get_key_metadata-ok, get_key_metadata-state, get_key_metadata-calm, update_key_metadata-ok,
  update_key_metadata-calm,
}
use go_mpc_wallet.Storage.Rows.{lookup-update_key}
use go_mpc_wallet.Key.Types.{Adapters}
use go_mpc_wallet.Key.Service.{addressed, compute_address, address_for, generate_address, get_key}

module _ {R : Redis} (ad : Adapters) (k : KeyMetadata) (chain_type : String) (w : World R) where
  -- With a stored address of the same chain, the row is only read.
  address_for-stored :
      k.address ≢ "" → k.chain_type ≡ chain_type → address_for ad k chain_type w ≡ (ok k.address, w)
  unfolding address_for
  address_for-stored named same =
      ground (arith, eq_iff k.address "", eq_iff k.chain_type chain_type)

  -- Otherwise the address that is returned is the one that is computed, and the row holds it.
  address_for-computed :
      {a : String}
      → (k.address ≡ "") ⊎ (k.chain_type ≢ chain_type)
      → lookup k.key_id w.keys ≡ some k
      → (address_for ad k chain_type w).0 ≡ ok a
      → (compute_address ad chain_type (decode_string k.public_key) ≡ ok a)
        × (lookup k.key_id (address_for ad k chain_type w).1.keys ≡ some (addressed k a w.now))
  unfolding address_for arrive
  address_for-computed {a} other found done =
      elim (Outcome-cases (compute_address ad chain_type (decode_string k.public_key))) [
        | inl (c, computed) ↦
            (elim (Outcome-cases (update_key_metadata (addressed k c w.now) w).0) [
              | inl (_, updated) ↦ ground (
                arith,
                eq_iff k.address "",
                eq_iff k.chain_type chain_type,
                update_key_metadata-ok (addressed k c w.now) w updated,
                lookup-update_key (addressed k c w.now) w.keys k found,
              )
              | inr (e, lost) ↦ ground (arith, eq_iff k.address "", eq_iff k.chain_type chain_type)
            ])
        | inr (e, failed) ↦ ground (arith, eq_iff k.address "", eq_iff k.chain_type chain_type)
      ]

module _ {R : Redis} (ad : Adapters) (id : String) (k : KeyMetadata) (w : World R) where
  generate_address-parts :
      (chain_type : String) {a : String}
      → lookup id w.keys ≡ some k
      → (generate_address ad id chain_type w).0 ≡ ok a
      → generate_address ad id chain_type w ≡ address_for ad k chain_type (arrive w)
  unfolding generate_address get_key
  generate_address-parts chain_type found done = elim (Outcome-cases (get_key_metadata id w).0) [
    | inl (k', read) ↦ ground (arith, get_key_metadata-ok id w read, get_key_metadata-state id w)
    | inr (e, missing) ↦ ground arith
  ]

  generate_address-calm :
      (chain_type : String)
      → lookup id w.keys ≡ some k
      → w.calls ≡ []
      → generate_address ad id chain_type w ≡ address_for ad k chain_type (arrive w)
  unfolding generate_address get_key
  generate_address-calm chain_type found calm =
      ground (arith, get_key_metadata-calm id k w found calm, get_key_metadata-state id w)

  -- An address that GenerateAddress returns, for a key whose row stands under its own identifier,
  -- is the stored one, where the key has one and the chain type is the key's, and then no data
  -- change; or it is the one computed for the chain type from the public key, and then the row
  -- holds it and the time of the update, and its other fields as before.
  pub generate_address-ok :
      (chain_type : String) {a : String}
      → lookup id w.keys ≡ some k
      → k.key_id ≡ id
      → (generate_address ad id chain_type w).0 ≡ ok a
      → ((k.address ≢ "")
          × (k.chain_type ≡ chain_type)
          × (a ≡ k.address)
          × ((generate_address ad id chain_type w).1 ≡ arrive w))
        ⊎ ((compute_address ad chain_type (decode_string k.public_key) ≡ ok a)
            × (lookup id (generate_address ad id chain_type w).1.keys
                ≡ some (addressed k a (arrive w).now)))
  unfolding arrive
  generate_address-ok chain_type {a} found named done =
      let same = generate_address-parts chain_type found done in
      elim (Bool-cases (str_eq k.address "")) [
        | inl blank ↦ ground (
          arith,
          eq_iff k.address "",
          address_for-computed ad k chain_type (arrive w) {a = a}
              (inl ((eq_iff k.address "").0 blank)),
        )
        | inr named' ↦ (elim (Bool-cases (str_eq k.chain_type chain_type)) [
          | inl chain ↦ ground (
            arith,
            eq_iff k.address "",
            eq_iff k.chain_type chain_type,
            address_for-stored ad k chain_type (arrive w),
          )
          | inr other ↦ ground (
            arith,
            eq_iff k.chain_type chain_type,
            address_for-computed ad k chain_type (arrive w) {a = a},
          )
        ])
      ]

module _ {R : Redis} (ad : Adapters) (id : String) (k : KeyMetadata) (w : World R)
    (chain_type a : String) where
  -- The state after an address of another chain has been computed.
  crossed-state :
      lookup id w.keys ≡ some k
      → k.key_id ≡ id
      → w.calls ≡ []
      → k.chain_type ≢ chain_type
      → compute_address ad chain_type (decode_string k.public_key) ≡ ok a
      → ((generate_address ad id chain_type w).0 ≡ ok a)
        × ((generate_address ad id chain_type w).1.calls ≡ [])
        × (lookup id (generate_address ad id chain_type w).1.keys
            ≡ some (addressed k a (arrive w).now))
  unfolding address_for arrive
  crossed-state found named calm differs computed = ground (
    arith,
    eq_iff k.chain_type chain_type,
    generate_address-calm ad id k w chain_type found calm,
    update_key_metadata-calm (addressed k a (arrive w).now) (arrive w),
    address_for-computed ad k chain_type (arrive w) {a = a} (inr differs),
  )

  -- Where no call fails, and the address of a key for a chain type other than the key's own can be
  -- computed and is not empty: after GenerateAddress has been asked for it, a request for the
  -- key's own chain type returns that address of the other chain.
  pub generate_address-crossed :
      lookup id w.keys ≡ some k
      → k.key_id ≡ id
      → w.calls ≡ []
      → k.chain_type ≢ chain_type
      → a ≢ ""
      → compute_address ad chain_type (decode_string k.public_key) ≡ ok a
      → (generate_address ad id k.chain_type (generate_address ad id chain_type w).1).0 ≡ ok a
  generate_address-crossed found named calm differs filled computed =
      let v = (generate_address ad id chain_type w).1 in
      let (done, calm', row) = crossed-state found named calm differs computed in
      let k' = addressed k a (arrive w).now in
      ground (
        arith,
        generate_address-calm ad id k' v k.chain_type row calm',
        address_for-stored ad k' k.chain_type (arrive v) filled refl,
      )
