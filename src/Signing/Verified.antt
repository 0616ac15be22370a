-- ===== src/Signing/Verified.antt =====
-- signing/service.go, ThresholdSign: what a response vouches for.
use go_mpc_wallet.Base.{
  ℕ, ◌+◌, ◌≤◌, ◌<◌, ◌≡◌, ◌≢◌, refl, inl, inr, String, true, false, some, List, [], ◌∷◌, map, length,
  take, drop, arith, ltb, lookup, Bool-cases, Option-cases, length-map, length-take, ap, sym, ◌∙◌,
  subst, ◌+++◌,
}
use go_mpc_wallet.Base.Hex.{decode_string}
use go_mpc_wallet.Storage.Types.{KeyMetadata, NodeInfo}
use go_mpc_wallet.Storage.World.{Redis, World, ok, Error, message, wrap, Outcome-cases}
use go_mpc_wallet.Storage.Postgres.{get_key_metadata}
use go_mpc_wallet.Storage.Laws.{get_key_metadata-ok}
use go_mpc_wallet.Session.Types.{Session}
use go_mpc_wallet.Session.Manager.{update_session, create_session}
use go_mpc_wallet.Key.Service.{get_key}
use go_mpc_wallet.Node.Types.{participant, active_node}
use go_mpc_wallet.Node.Discovery.{discover_nodes}
use go_mpc_wallet.Signing.Types.{SignRequest, SignResponse, VerifyRequest, VerifyResponse}
use go_mpc_wallet.Signing.Protocol.{infer_protocol}
use go_mpc_wallet.Signing.Service.{
  Network, Signer, signed, late, out_of_fuel, poll, poll_fuel, max_wait, start_request,
  signature_of, message_of, response, check_signature, abandon, await, lead, sign_with, chosen,
  gather, threshold_sign, verify,
}

-- The signature of the response is one that the engine finds valid, for the message asked for and
-- under the public key of `k`; the response has that key.
abbrev pub IsVerified : {R : Redis} → Network R → SignRequest → KeyMetadata → SignResponse → Type 0
IsVerified net req k r =
    (key : List ℕ) × (bytes : List ℕ) × (msg : List ℕ) × (decode_string k.public_key ≡ some key)
    × (decode_string r.signature ≡ some bytes)
    × (message_of req.message_hex req.message ≡ some msg)
    × (net.verify_signature (signature_of r.signature bytes) msg
          (record { bytes = key; hex = k.public_key })
        ≡ ok true)
    × (r.public_key ≡ k.public_key)

module _ {R : Redis} (net : Network R) (req : SignRequest) (k : KeyMetadata) (s : Session) where
  -- The same of a response of a part of ThresholdSign, once it has the message.
  Vouches : SignResponse → Type 0
  Vouches r = IsVerified net req k r × (r.participating_nodes ≡ s.participating_nodes)

  check_signature-ok :
      (msg : List ℕ) (signature : String) (w : World R) {r : SignResponse}
      → message_of req.message_hex req.message ≡ some msg
      → (check_signature net req k s msg signature w).0 ≡ ok r
      → Vouches r
  unfolding check_signature Vouches
  check_signature-ok msg signature w {r} asked done =
      elim (Option-cases (decode_string k.public_key)) [
        | inl bad ↦ ground arith
        | inr (key, good) ↦ elim (Option-cases (decode_string signature)) [
          | inl bad ↦ ground arith
          | inr (bytes, decoded) ↦
              elim (Outcome-cases (
                net.verify_signature (signature_of signature bytes) msg
                  (record { bytes = key; hex = k.public_key }))) [
                    | inr (e, failed) ↦ ground arith
                    | inl (false, invalid) ↦ ground arith
                    | inl (true, valid) ↦
                        let same : r ≡ response net req k s msg signature w.now = ground arith in
                        subst (Vouches) (sym same)
                          ((key, bytes, msg, good, decoded, asked, valid, refl), refl)
                  ]
        ]
      ]

  abandon-ok : {A : Type 0} (a : A) (e : Error) (w : World R) → (abandon net s e w).0 ≢ ok a
  unfolding abandon
  abandon-ok a e w = ground arith

  await-ok :
      (msg : List ℕ) (w : World R) {r : SignResponse}
      → message_of req.message_hex req.message ≡ some msg
      → (await net req k s msg w).0 ≡ ok r
      → Vouches r
  unfolding await
  await-ok msg w {r} asked done =
      let p = poll net (poll_fuel net) (w.now + max_wait) s.session_id w in
      elim (Outcome-cases p.0) [
        | inr (e, failed) ↦ ground arith
        | inl (late, over) ↦ absurd (abandon-ok r (message "signing timeout") p.1 (ground arith))
        | inl (out_of_fuel, over) ↦ ground arith
        | inl (signed signature, finished) ↦
            check_signature-ok msg signature p.1 {r = r} asked (ground arith)
      ]

  lead-ok :
      (msg : List ℕ) (nodes : List String) (w : World R) {r : SignResponse}
      → message_of req.message_hex req.message ≡ some msg
      → (lead net req k s msg nodes w).0 ≡ ok r
      → Vouches r × (0 < length nodes)
  unfolding lead
  lead-ok msg [] w asked done = ground arith
  lead-ok msg (leader ∷ rest) w {r} asked done =
      let sent = net.send_start_sign leader (start_request net req k s msg) w in
      elim (Outcome-cases sent.0) [
        | inr (e, lost) ↦ absurd (
            abandon-ok r (wrap "failed to call StartSign on leader participant" e) sent.1
              (ground arith))
        | inl ((true, note), begun) ↦
            (await-ok msg sent.1 {r = r} asked (ground arith), omega arith)
        | inl ((false, note), refused) ↦
            absurd (abandon-ok r (message (◌+++◌ "StartSign failed: " note)) sent.1 (ground arith))
      ]

  sign_with-ok :
      (w : World R) {r : SignResponse}
      → (sign_with net req k s w).0 ≡ ok r
      → Vouches r × (0 < length s.participating_nodes)
  unfolding sign_with
  sign_with-ok w {r} done = elim (Outcome-cases (update_session s w).0) [
    | inr (e, lost) ↦ ground arith
    | inl (_, updated) ↦ elim (Option-cases (message_of req.message_hex req.message)) [
      | inl bad ↦ ground arith
      | inr (msg, asked) ↦
          lead-ok msg s.participating_nodes (update_session s w).1 {r = r} asked (ground arith)
    ]
  ]

module _ {R : Redis} (net : Network R) (req : SignRequest) (k : KeyMetadata) where
  gather-ok :
      (s : Session) (nodes : List NodeInfo) (w : World R) {r : SignResponse}
      → (gather net req k s nodes w).0 ≡ ok r
      → IsVerified net req k r
        × (r.participating_nodes ≡ map (λ n. n.node_id) (take k.threshold nodes))
        × (length r.participating_nodes ≡ k.threshold)
        × (0 < k.threshold)
  unfolding gather Vouches
  gather-ok s nodes w {r} done = elim (Bool-cases (ltb (length nodes) k.threshold)) [
    | inl few ↦ ground arith
    | inr plenty ↦
        let ((vouched, same), some_node) =
          sign_with-ok net req k (chosen net s k.threshold nodes) w {r = r} (ground arith) in
        let enough : k.threshold ≤ length nodes = ground arith in
        let size : length (map (λ n. n.node_id) (take k.threshold nodes)) ≡ k.threshold = omega (
          arith,
          length-map (take k.threshold nodes) (λ n. n.node_id),
          length-take k.threshold nodes,
          enough,
        ) in
        (vouched, same, ap length same ∙ size, omega (arith, size, some_node))
  ]

module _ {R : Redis} (g : Signer R) (uuid : String) (req : SignRequest) (w : World R) where
  -- A signature that ThresholdSign returns is one that the protocol engine finds valid, for the
  -- message that was asked for and under the public key in the row of the key asked for; the
  -- response carries that public key. As many nodes take part as the key's threshold says, and the
  -- threshold is positive.
  pub threshold_sign-ok :
      {r : SignResponse}
      → (threshold_sign g uuid req w).0 ≡ ok r
      → (k : KeyMetadata) × (lookup req.key_id w.keys ≡ some k)
        × IsVerified g.network req k r
        × (length r.participating_nodes ≡ k.threshold)
        × (0 < k.threshold)
  unfolding threshold_sign get_key
  threshold_sign-ok {r} done = elim (Outcome-cases (get_key_metadata req.key_id w).0) [
    | inr (e, missing) ↦ ground arith
    | inl (k, read) ↦
        let v = (get_key_metadata req.key_id w).1 in
        let created =
          create_session g.manager uuid req.key_id
            (infer_protocol k.algorithm k.curve g.default_protocol) k.threshold k.total_nodes v in
        elim (Outcome-cases created.0) [
          | inr (e, lost) ↦ ground arith
          | inl (s, made) ↦
              let found = discover_nodes g.finder participant active_node k.threshold created.1 in
              elim (Outcome-cases found.0) [
                | inr (e, lost) ↦ ground arith
                | inl (nodes, answered) ↦
                    let (vouched, _, size, some_node) =
                      gather-ok g.network req k s nodes found.1 {r = r} (ground arith) in
                    (k, get_key_metadata-ok req.key_id w read, vouched, size, some_node)
              ]
        ]
  ]

-- A response of Verify says what the protocol engine says, of a signature of at least 64 bytes
-- whose first 32 are R and next 32 are S, for the message and the public key of the request.
pub verify-ok :
    {R : Redis} (net : Network R) (req : VerifyRequest) (w : World R) {r : VerifyResponse}
    → (verify net req w).0 ≡ ok r
    → (bytes : List ℕ) × (key : List ℕ) × (msg : List ℕ) × (decode_string req.signature
        ≡ some bytes)
      × (64 ≤ length bytes)
      × (decode_string req.public_key ≡ some key)
      × (message_of req.message_hex req.message ≡ some msg)
      × (net.verify_signature
            (record {
              bytes = bytes;
              hex = req.signature;
              r = take 32 bytes;
              s = take 32 (drop 32 bytes);
            })
            msg
            (record { bytes = key; hex = req.public_key })
          ≡ ok r.valid)
unfolding verify
verify-ok net req w {r} done = elim (Option-cases (decode_string req.signature)) [
  | inl bad ↦ ground arith
  | inr (bytes, decoded) ↦ elim (Bool-cases (ltb (length bytes) 64)) [
    | inl short ↦ ground arith
    | inr long ↦ elim (Option-cases (decode_string req.public_key)) [
      | inl bad ↦ ground arith
      | inr (key, good) ↦ elim (Option-cases (message_of req.message_hex req.message)) [
        | inl bad ↦ ground arith
        | inr (msg, asked) ↦ (bytes, key, msg, decoded, ground arith, good, asked, ground arith)
      ]
    ]
  ]
]
