-- ===== src/Rpc/Effect.antt =====
-- grpc/server.go: what the handlers do to the goroutines and to the Onces of the sessions.
use go_mpc_wallet.Base.{
  ℕ, suc, ◌+◌, ◌≡◌, refl, ◌∙◌, inl, inr, String, Bool, false, List, [], ◌∷◌, ◌++◌, str_eq,
  if◌then◌else◌, arith, Bool-cases, Option-cases,
}
use go_mpc_wallet.Storage.World.{Redis, Outcome, ok, err, Outcome-cases}
use go_mpc_wallet.Session.Types.{Session}
use go_mpc_wallet.Session.Manager.{contains, get_session}
use go_mpc_wallet.Node.Consul.{trim_prefix}
use go_mpc_wallet.Key.Types.{KeyGenResponse}
use go_mpc_wallet.Signing.Types.{StartSign}
use go_mpc_wallet.Protocol.Types.{KeyGenRequest}
use go_mpc_wallet.Rpc.Types.{
  StartDkg, ShareRequest, Engines, Config, Task, keygen_task, auto_task, sign_task, Server,
  session_or_key,
}
use go_mpc_wallet.Rpc.Tasks.{
  run_task, run_dkg, finish_dkg, run_sign, sign_message, infer_protocol_for_dkg, dkg_request,
  auto_request, engine_named, engine_lower,
}
use go_mpc_wallet.Rpc.Server.{
  start_dkg, start_sign, submit_signature_share, handle_protocol_message, keygen_message,
  auto_start, is_keygen, too_few, too_many, lacks_parameters, is_minus_one,
}

unfoldable pub occurrences : String → List String → ℕ
occurrences id [] = 0
occurrences id (x ∷ xs) = let rest = occurrences id xs in if str_eq x id then suc rest else rest

-- The sessions whose key generation, and whose signing, the goroutines are for.
unfoldable pub dkg_sessions : List Task → List String
dkg_sessions [] = []
dkg_sessions (keygen_task req ∷ ts) = session_or_key req.session_id req.key_id ∷ dkg_sessions ts
dkg_sessions (auto_task id _ ∷ ts) = id ∷ dkg_sessions ts
dkg_sessions (sign_task _ ∷ ts) = dkg_sessions ts

unfoldable pub sign_sessions : List Task → List String
sign_sessions [] = []
sign_sessions (keygen_task _ ∷ ts) = sign_sessions ts
sign_sessions (auto_task _ _ ∷ ts) = sign_sessions ts
sign_sessions (sign_task req ∷ ts) = session_or_key req.session_id req.key_id ∷ sign_sessions ts

pub absent : (id : String) (xs : List String) → contains id xs ≡ false → occurrences id xs ≡ 0
unfolding contains occurrences
absent id [] none_here = refl
absent id (x ∷ xs) none_here = ground (arith, absent id xs)

pub occurrences-append :
    (id : String) (xs ys : List String)
    → occurrences id (xs ++ ys) ≡ occurrences id xs + occurrences id ys
unfolding occurrences
occurrences-append id [] ys = omega arith
occurrences-append id (x ∷ xs) ys = ground (arith, occurrences-append id xs ys)

pub dkg_sessions-append :
    (xs ys : List Task) → dkg_sessions (xs ++ ys) ≡ dkg_sessions xs ++ dkg_sessions ys
unfolding dkg_sessions
dkg_sessions-append [] ys = refl
dkg_sessions-append (keygen_task req ∷ xs) ys = ground (arith, dkg_sessions-append xs ys)
dkg_sessions-append (auto_task id sess ∷ xs) ys = ground (arith, dkg_sessions-append xs ys)
dkg_sessions-append (sign_task req ∷ xs) ys = dkg_sessions-append xs ys

pub sign_sessions-append :
    (xs ys : List Task) → sign_sessions (xs ++ ys) ≡ sign_sessions xs ++ sign_sessions ys
unfolding sign_sessions
sign_sessions-append [] ys = refl
sign_sessions-append (keygen_task req ∷ xs) ys = sign_sessions-append xs ys
sign_sessions-append (auto_task id sess ∷ xs) ys = sign_sessions-append xs ys
sign_sessions-append (sign_task req ∷ xs) ys = ground (arith, sign_sessions-append xs ys)

module _ {R : Redis} {E : Engines R} where
  -- What a handler does to the goroutines and to the Onces: nothing, or it starts one goroutine,
  -- and spends a Once that was not spent.
  pub data Effect (s t : Server E) : Type 0 where
    quiet : t.dkg_once ≡ s.dkg_once → t.sign_once ≡ s.sign_once → t.tasks ≡ s.tasks → Effect s t
    starts_dkg :
        (id : String) (g : Task)
        → ((ts : List Task) → dkg_sessions (g ∷ ts) ≡ id ∷ dkg_sessions ts)
        → ((ts : List Task) → sign_sessions (g ∷ ts) ≡ sign_sessions ts)
        → contains id s.dkg_once ≡ false
        → t.dkg_once ≡ id ∷ s.dkg_once
        → t.sign_once ≡ s.sign_once
        → t.tasks ≡ g ∷ s.tasks
        → Effect s t
    starts_sign :
        (req : StartSign)
        → too_few req ≡ false
        → too_many req ≡ false
        → contains (session_or_key req.session_id req.key_id) s.sign_once ≡ false
        → t.dkg_once ≡ s.dkg_once
        → t.sign_once ≡ session_or_key req.session_id req.key_id ∷ s.sign_once
        → t.tasks ≡ sign_task req ∷ s.tasks
        → Effect s t

  module _ (c : Config E) where
    pub start_dkg-Effect : (req : StartDkg) (s : Server E) → Effect s (start_dkg c req s).1
    unfolding start_dkg dkg_sessions sign_sessions
    start_dkg-Effect req s =
        let id = session_or_key req.session_id req.key_id in
        elim (Bool-cases (contains id s.dkg_once)) [
          | inl spent ↦ quiet (ground arith) (ground arith) (ground arith)
          | inr fresh ↦
              starts_dkg id (keygen_task req) (λ ts. refl) (λ ts. refl) fresh (ground arith)
                (ground arith) (ground arith)
        ]

    auto_start-Effect :
        (id : String) (sess : Session) (s : Server E) → Effect s (auto_start c id sess s)
    unfolding auto_start dkg_sessions sign_sessions
    auto_start-Effect id sess s = elim (Bool-cases (lacks_parameters sess)) [
      | inl lacks ↦ quiet (ground arith) (ground arith) (ground arith)
      | inr has ↦ elim (Bool-cases (contains id s.dkg_once)) [
        | inl spent ↦ quiet (ground arith) (ground arith) (ground arith)
        | inr fresh ↦
            starts_dkg id (auto_task id sess) (λ ts. refl) (λ ts. refl) fresh (ground arith)
              (ground arith) (ground arith)
      ]
    ]

    pub start_sign-Effect : (req : StartSign) (s : Server E) → Effect s (start_sign c req s).1
    unfolding start_sign
    start_sign-Effect req s = elim (Bool-cases (too_few req)) [
      | inl few ↦ quiet (ground arith) (ground arith) (ground arith)
      | inr enough ↦ elim (Bool-cases (too_many req)) [
        | inl many ↦ quiet (ground arith) (ground arith) (ground arith)
        | inr fits ↦
            elim (Bool-cases (contains (session_or_key req.session_id req.key_id) s.sign_once)) [
              | inl spent ↦ quiet (ground arith) (ground arith) (ground arith)
              | inr fresh ↦
                  starts_sign req enough fits fresh (ground arith) (ground arith) (ground arith)
            ]
      ]
    ]

    -- The handler's effect, however the database and the engines change before and after it.
    around :
        (s s' t t' : Server E)
        → (s'.dkg_once ≡ s.dkg_once) × (s'.sign_once ≡ s.sign_once) × (s'.tasks ≡ s.tasks)
        → (t'.dkg_once ≡ t.dkg_once) × (t'.sign_once ≡ t.sign_once) × (t'.tasks ≡ t.tasks)
        → Effect s' t
        → Effect s t'
    around s s' t t' (a, b, d) (a', b', d') (quiet x y z) =
        quiet (a' ∙ x ∙ a) (b' ∙ y ∙ b) (d' ∙ z ∙ d)
    around s s' t t' (a, b, d) (a', b', d') (starts_dkg id g ks ss fresh x y z) =
        starts_dkg id g ks ss (ground arith) (ground arith) (ground arith) (ground arith)
    around s s' t t' (a, b, d) (a', b', d') (starts_sign req few many fresh x y z) =
        starts_sign req few many (ground arith) (ground arith) (ground arith) (ground arith)

    keygen_message-Effect :
        (id : String) (sess : Session) (from share : String) (b : Bool) (s : Server E)
        → Effect s (keygen_message c id sess from share b s).1
    unfolding keygen_message
    keygen_message-Effect id sess from share b s = elim (Bool-cases (str_eq share "DKG_START")) [
      | inl begins ↦ quiet (ground arith) (ground arith) (ground arith)
      | inr other ↦ elim (Option-cases (trim_prefix "DKG_COMPLETE:" share)) [
        | inr (key, ends) ↦ quiet (ground arith) (ground arith) (ground arith)
        | inl neither ↦
            around s s (auto_start c id sess s) (keygen_message c id sess from share b s).1
              (refl, refl, refl) (ground arith, ground arith, ground arith)
              (auto_start-Effect id sess s)
      ]
    ]

    pub submit-Effect :
        (req : ShareRequest) (s : Server E) → Effect s (submit_signature_share c req s).1
    unfolding submit_signature_share handle_protocol_message
    submit-Effect req s = elim (Outcome-cases (get_session req.session_id s.world).0) [
      | inr (e, missing) ↦ quiet (ground arith) (ground arith) (ground arith)
      | inl (sess, read) ↦ elim (Bool-cases (is_keygen c req.session_id sess)) [
        | inr signs ↦ quiet (ground arith) (ground arith) (ground arith)
        | inl keys ↦
            let t = record s { world = (get_session req.session_id s.world).1 } in
            let b = is_minus_one req.round in
            around s t (keygen_message c req.session_id sess req.node_id req.share_data b t).1
              (submit_signature_share c req s).1 (refl, refl, refl)
              (ground arith, ground arith, ground arith)
              (keygen_message-Effect req.session_id sess req.node_id req.share_data b t)
      ]
    ]

    finish_dkg-frame :
        (key_id : String) (r : Outcome KeyGenResponse) (s : Server E)
        → let t = finish_dkg c key_id r s in
          (t.dkg_once ≡ s.dkg_once) × (t.sign_once ≡ s.sign_once) × (t.tasks ≡ s.tasks)
    unfolding finish_dkg
    finish_dkg-frame key_id (err e) s = (refl, refl, refl)
    finish_dkg-frame key_id (ok resp) s = ground arith

    run_dkg-frame :
        (engine : E.Ref) (req : KeyGenRequest) (s : Server E)
        → let t = run_dkg c engine req s in
          (t.dkg_once ≡ s.dkg_once) × (t.sign_once ≡ s.sign_once) × (t.tasks ≡ s.tasks)
    unfolding run_dkg
    run_dkg-frame engine req s = ground (
      arith,
      finish_dkg-frame req.key_id (E.engine_keygen engine req s.inner s.world).0 (record s {
        inner = (E.engine_keygen engine req s.inner s.world).1;
        world = (E.engine_keygen engine req s.inner s.world).2;
      }),
    )

    run_sign-frame :
        (req : StartSign) (s : Server E)
        → let t = run_sign c req s in
          (t.dkg_once ≡ s.dkg_once) × (t.sign_once ≡ s.sign_once) × (t.tasks ≡ s.tasks)
    unfolding run_sign
    run_sign-frame req s = elim (Option-cases (sign_message req)) [
      | inl bad ↦ ground arith
      | inr (msg, given) ↦ ground arith
    ]

    -- A goroutine changes the database and the engines only.
    pub run_task-frame :
        (g : Task) (s : Server E)
        → let t = run_task c g s in
          (t.dkg_once ≡ s.dkg_once) × (t.sign_once ≡ s.sign_once) × (t.tasks ≡ s.tasks)
    unfolding run_task
    run_task-frame (keygen_task req) s =
        run_dkg-frame (engine_named c (infer_protocol_for_dkg req.algorithm req.curve))
          (dkg_request req) s
    run_task-frame (auto_task id sess) s =
        run_dkg-frame (engine_lower c sess.protocol) (auto_request sess) s
    run_task-frame (sign_task req) s = run_sign-frame req s
