-- ===== src/Key/Dkg.antt =====
-- key/dkg.go, ExecuteDKG. The engine's GenerateKeyShare is a parameter.
use go_mpc_wallet.Base.{
  ◌≤◌, ◌≡◌, ◌≢◌, inl, inr, String, List, length, ltb, ◌==◌, str_eq, if◌then◌else◌, arith, eq_iff,
}
use go_mpc_wallet.Storage.World.{
  Redis, World, M, ok, message, fail, pure, wrapping, ◌>>=◌, Outcome-cases,
}
use go_mpc_wallet.Storage.Types.{SigningSession}
use go_mpc_wallet.Storage.Postgres.{get_signing_session}
use go_mpc_wallet.Key.Types.{CreateKeyRequest, KeyGenResponse}
use go_mpc_wallet.Protocol.Types.{KeyGenRequest}

abbrev pub generation_request : String → CreateKeyRequest → List String → KeyGenRequest
generation_request id req ids = record {
  key_id = id;
  algorithm = req.algorithm;
  curve = req.curve;
  threshold = req.threshold;
  total_nodes = req.total_nodes;
  node_ids = ids;
}

module _ {R : Redis} where
  abbrev checked_reply : KeyGenResponse → M R KeyGenResponse
  checked_reply reply =
      if length reply.key_shares == 0
      then fail (message "no key shares generated")
      else (if str_eq reply.public_key ""
          then fail (message "invalid public key from DKG")
          else pure reply)

  abbrev generate_with :
      (KeyGenRequest → M R KeyGenResponse)
      → String
      → CreateKeyRequest
      → List String
      → M R KeyGenResponse
  generate_with run id req ids = do
    reply ← wrapping "failed to execute DKG protocol" (run (generation_request id req ids))
    checked_reply reply

  abbrev generate_among :
      (KeyGenRequest → M R KeyGenResponse)
      → String
      → CreateKeyRequest
      → List String
      → M R KeyGenResponse
  generate_among run id req ids =
      if length ids == 0
      then fail (message "no participating nodes in DKG session")
      else (if ltb (length ids) req.threshold
          then fail (message "insufficient participating nodes")
          else generate_with run id req ids)

  -- DKGService.ExecuteDKG: the session of a key generation has the key's identifier.
  unfoldable pub execute_dkg :
      (KeyGenRequest → M R KeyGenResponse) → String → CreateKeyRequest → M R KeyGenResponse
  execute_dkg run id req = do
    s ← wrapping "failed to get DKG session" (get_signing_session id)
    generate_among run id req s.participating_nodes

  generate_among-ok :
      (run : KeyGenRequest → M R KeyGenResponse) (id : String) (req : CreateKeyRequest)
      (ids : List String) (w : World R) {reply : KeyGenResponse}
      → (generate_among run id req ids w).0 ≡ ok reply
      → (1 ≤ length ids)
        × (req.threshold ≤ length ids)
        × ((run (generation_request id req ids) w).0 ≡ ok reply)
        × (1 ≤ length reply.key_shares)
        × (reply.public_key ≢ "")
  generate_among-ok run id req ids w {reply} done =
      elim (Outcome-cases (run (generation_request id req ids) w).0) [
        | inr (e, lost) ↦ ground arith
        | inl (r, ran) ↦ (
          ground arith,
          ground arith,
          ground arith,
          ground arith,
          ground (arith, eq_iff r.public_key ""),
        )
      ]

  -- Where ExecuteDKG returns keys: the session was read, it has at least one node and at least as
  -- many as the threshold, the engine ran among its nodes and returned them, and there is at least
  -- one share and a public key that is not empty.
  pub execute_dkg-ok :
      (run : KeyGenRequest → M R KeyGenResponse) (id : String) (req : CreateKeyRequest)
      (w : World R) {reply : KeyGenResponse}
      → (execute_dkg run id req w).0 ≡ ok reply
      → (s : SigningSession) × ((get_signing_session id w).0 ≡ ok s)
        × (1 ≤ length s.participating_nodes)
        × (req.threshold ≤ length s.participating_nodes)
        × ((run (generation_request id req s.participating_nodes) (get_signing_session id w).1).0
            ≡ ok reply)
        × (1 ≤ length reply.key_shares)
        × (reply.public_key ≢ "")
  unfolding execute_dkg
  execute_dkg-ok run id req w {reply} done = elim (Outcome-cases (get_signing_session id w).0) [
    | inr (e, lost) ↦ ground arith
    | inl (s, found) ↦
        let (some_nodes, enough, ran, shares, key) =
          generate_among-ok run id req s.participating_nodes (get_signing_session id w).1
            (ground arith) in
        (s, found, some_nodes, enough, ran, shares, key)
  ]
