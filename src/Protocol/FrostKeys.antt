-- ===== src/Protocol/FrostKeys.antt =====
-- protocol/frost.go: the size of the keys and the signatures of FROST.
use go_mpc_wallet.Base.{
  ℕ, ◌≡◌, refl, inl, inr, String, Bool, true, false, List, Option, none, some, Dict, lookup, length,
  lookup-insert, arith, Option-cases,
}
use go_mpc_wallet.Storage.World.{ok, Outcome-cases}
use go_mpc_wallet.Signing.Types.{Signature, PublicKey}
use go_mpc_wallet.Signing.Signer.{EngineRequest}
use go_mpc_wallet.Protocol.Types.{KeyGenRequest}
use go_mpc_wallet.Protocol.Requests.{
  validate_frost, validate_sign_request, normalize_node_ids, resolve_message_payload,
}
use go_mpc_wallet.Protocol.Encoding.{KeyShare}
use go_mpc_wallet.Protocol.Gg18.{SignReply, frost_signing_options}
use go_mpc_wallet.Protocol.Run.{returns, Result-cases}
use go_mpc_wallet.Protocol.Frost.{
  EdTss, FrostRecord, FrostMemory, convert_frost_key_data, convert_frost_signature,
  save_frost_record, persist_frost, generate_frost, load_frost, sign_frost_with,
  threshold_sign_frost, key_at, stored_record, fresh_record, frost_key_id,
}

module _ (E : EdTss) where
  length-convert_frost_signature :
      (raw : Option (List ℕ)) {sig : Signature}
      → convert_frost_signature E raw ≡ ok sig
      → length sig.bytes ≡ 64
  unfolding convert_frost_signature
  length-convert_frost_signature none {sig} done = ground arith
  length-convert_frost_signature (some raw) {sig} done =
      elim (Outcome-cases (E.standard_signature raw)) [
        | inr (e, bad) ↦ ground arith
        | inl (b, fine) ↦ ground (arith, E.length-standard_signature raw {sig = b} fine)
      ]

  length-key_at : (point : ℕ × ℕ) → length (key_at E point).bytes ≡ 32
  length-key_at (x, y) = E.length-standard_key x y

  length-convert_frost_key_data :
      (id : String) (d : E.Save) (ids : List String) {made : Dict KeyShare × PublicKey}
      → convert_frost_key_data E id d ids ≡ ok made
      → length made.1.bytes ≡ 32
  unfolding convert_frost_key_data
  length-convert_frost_key_data id d ids {made} done = elim (Option-cases (E.public_point d)) [
    | inl missing ↦ ground arith
    | inr (point, there) ↦ ground (arith, length-key_at point)
  ]

module _ {E : EdTss} where
  -- Each record's key has the size of an Ed25519 key.
  abbrev pub KeysFit : FrostMemory E → Type 0
  KeysFit s =
      (id : String) (r : FrostRecord E)
      → lookup id s.key_records ≡ some r
      → length r.public_key.bytes ≡ 32

  save-KeysFit :
      (id : String) (new : FrostRecord E) (s : FrostMemory E)
      → KeysFit s
      → length new.public_key.bytes ≡ 32
      → KeysFit (save_frost_record id new s).1
  unfolding save_frost_record
  save-KeysFit id new s fit size other r held =
      ground (arith, lookup-insert id other new s.key_records, fit other r)

  persist-records :
      (has_storage : Bool) (id this : String) (d : E.Save) (s : FrostMemory E)
      → (persist_frost has_storage id this d s).1.key_records ≡ s.key_records
  unfolding persist_frost
  persist-records false id this d s = refl
  persist-records true id this d s = elim (Outcome-cases (E.encode d)) [
    | inr (e, lost) ↦ ground arith
    | inl (bytes, encoded) ↦ ground arith
  ]

  pub generate-KeysFit :
      (has_storage : Bool) (this : String) (nano : ℕ) (req : KeyGenRequest) (s : FrostMemory E)
      → KeysFit s
      → KeysFit (generate_frost has_storage this nano req s).1
  unfolding generate_frost
  generate-KeysFit has_storage this nano req s fit = elim (Outcome-cases (validate_frost req)) [
    | inr (e, bad) ↦ λ id r held. fit id r (ground arith)
    | inl (_, valid) ↦ elim (Outcome-cases (normalize_node_ids req.node_ids req.total_nodes)) [
      | inr (e, bad) ↦ λ id r held. fit id r (ground arith)
      | inl (ids, normal) ↦
          let key_id = frost_key_id nano req.key_id in
          let ran = E.execute_keygen key_id ids req.threshold this s.below in
          elim (Outcome-cases ran.0) [
            | inr (e, bad) ↦ λ id r held. fit id r (ground arith)
            | inl (d, well) ↦ elim (Outcome-cases (convert_frost_key_data E key_id d ids)) [
              | inr (e, bad) ↦ λ id r held. fit id r (ground arith)
              | inl (made, fine) ↦
                  let u : FrostMemory E = record s { below = ran.1 } in
                  let new = fresh_record {E = E} req ids d made.1 in
                  let size = length-convert_frost_key_data E key_id d ids {made = made} fine in
                  let kept = save-KeysFit key_id new u fit size in
                  let v = (save_frost_record key_id new u).1 in
                  let same = persist-records has_storage key_id this d v in
                  elim (Result-cases (persist_frost has_storage key_id this d v).0) [
                    | inl (_, stored) ↦ λ id r held. kept id r (ground (arith, same))
                    | inr lost ↦ λ id r held. kept id r (ground (arith, same))
                  ]
            ]
          ]
    ]
  ]

  load_frost-fits :
      (has_storage : Bool) (curve id this : String) (s : FrostMemory E)
      → KeysFit s
      → KeysFit (load_frost has_storage curve id this s).1
        × ((r : FrostRecord E)
            → (load_frost has_storage curve id this s).0 ≡ returns r
            → length r.public_key.bytes ≡ 32)
  unfolding load_frost save_frost_record
  load_frost-fits false curve id this s fit = (fit, λ r done. ground arith)
  load_frost-fits true curve id this s fit =
      let u : FrostMemory E = record s { below = (E.read_key_data id this s.below).1 } in
      elim (Outcome-cases (E.read_key_data id this s.below).0) [
        | inr (e, bad) ↦ (λ other r held. fit other r (ground arith), λ r done. ground arith)
        | inl (bytes, found) ↦ elim (Outcome-cases (E.decode bytes)) [
          | inr (e, bad) ↦ (λ other r held. fit other r (ground arith), λ r done. ground arith)
          | inl (d, decoded) ↦ elim (Option-cases (E.public_point d)) [
            | inl missing ↦ (λ other r held. fit other r (ground arith), λ r done. ground arith)
            | inr (point, there) ↦
                let new = stored_record {E = E} curve d (key_at E point) in
                let size = length-key_at E point in
                let kept = save-KeysFit id new u fit size in
                (
                  λ other r held. kept other r (ground (arith, held)),
                  λ r done. ground (arith, size, done),
                )
          ]
        ]
      ]

  sign_frost_with-fits :
      (this session : String) (req : EngineRequest) (r : FrostRecord E) (s : FrostMemory E)
      → ((sign_frost_with this session req r s).1.key_records ≡ s.key_records)
        × ((reply : SignReply)
            → (sign_frost_with this session req r s).0 ≡ returns reply
            → (reply.public_key ≡ r.public_key) × (length reply.signature.bytes ≡ 64))
  unfolding sign_frost_with
  sign_frost_with-fits this session req r s = elim (Outcome-cases (resolve_message_payload req)) [
    | inr (e, bad) ↦ (ground arith, λ reply done. ground arith)
    | inl (msg, plain) ↦
        let ran =
          E.execute_signing session req.key_id msg req.node_ids this r.key_data
            frost_signing_options s.below in
        elim (Outcome-cases ran.0) [
          | inr (e, bad) ↦ (ground arith, λ reply done. ground arith)
          | inl (raw, made) ↦ elim (Outcome-cases (convert_frost_signature E raw)) [
            | inr (e, bad) ↦ (ground arith, λ reply done. ground arith)
            | inl (sig, fine) ↦
                let size = length-convert_frost_signature E raw {sig = sig} fine in
                (ground arith, λ reply done. (ground (arith, done), ground (arith, size, done)))
          ]
        ]
  ]

  pub threshold_sign_frost-fits :
      (has_storage : Bool) (curve this session : String) (req : EngineRequest) (s : FrostMemory E)
      → KeysFit s
      → KeysFit (threshold_sign_frost has_storage curve this session req s).1
        × ((reply : SignReply)
            → (threshold_sign_frost has_storage curve this session req s).0 ≡ returns reply
            → (length reply.public_key.bytes ≡ 32) × (length reply.signature.bytes ≡ 64))
  unfolding threshold_sign_frost
  threshold_sign_frost-fits has_storage curve this session req s fit =
      elim (Outcome-cases (validate_sign_request req)) [
        | inr (e, bad) ↦ (λ id r held. fit id r (ground arith), λ reply done. ground arith)
        | inl (_, valid) ↦ elim (Option-cases (lookup req.key_id s.key_records)) [
          | inr (r, there) ↦
              let (same, good) = sign_frost_with-fits this session req r s in
              (
                λ id r' held. fit id r' (ground (arith, same, held)),
                λ reply done.
                    let (key, size) = good reply (ground (arith, done)) in
                    (ground (arith, fit req.key_id r there, key), size),
              )
          | inl missing ↦
              let loaded = load_frost has_storage curve req.key_id this s in
              let (kept, sized) = load_frost-fits has_storage curve req.key_id this s fit in
              elim (Result-cases loaded.0) [
                | inr lost ↦ (
                  λ id r held. kept id r (ground (arith, held, lost)),
                  λ reply done. ground (arith, lost, done),
                )
                | inl (r, read) ↦
                    let (same, good) = sign_frost_with-fits this session req r loaded.1 in
                    (
                      λ id r' held. kept id r' (ground (arith, same, held)),
                      λ reply done.
                          let (key, size) = good reply (ground (arith, done)) in
                          (ground (arith, sized r read, key), size),
                    )
              ]
        ]
      ]
