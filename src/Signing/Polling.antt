-- ===== src/Signing/Polling.antt =====
-- signing/service.go, ThresholdSign: the loop that waits for the signature.
use go_mpc_wallet.Base.{
  ℕ, zero, suc, ◌+◌, ◌*◌, ◌≤◌, ◌<◌, ◌≡◌, ◌≢◌, inl, inr, String, Bool, true, false, not, ◌&&◌, arith,
  ltb, str_eq, eq_iff, Bool-cases,
}
use go_mpc_wallet.Storage.World.{Redis, World, ok, err, Error, Outcome-cases, message, wrap}
use go_mpc_wallet.Session.Types.{Session, completed, failed}
use go_mpc_wallet.Session.Manager.{get_session}
use go_mpc_wallet.Session.Lookup.{get_session-SameData}
use go_mpc_wallet.Signing.Service.{Network, signed, late, out_of_fuel, poll, wait, poll_interval}

-- What goes on meanwhile does not turn the clock back.
abbrev pub RunsForward : {R : Redis} → Network R → Type 0
RunsForward {R} net = (w : World R) → w.now ≤ (net.meanwhile w).now

abbrev pub is_signed : Session → Bool
is_signed s = str_eq s.status completed && not (str_eq s.signature "")

module _ {R : Redis} (net : Network R) (deadline : ℕ) (id : String) (f : ℕ) (w : World R) where
  poll-late : ltb w.now deadline ≡ false → poll net (suc f) deadline id w ≡ (ok late, w)
  unfolding poll
  poll-late over = ground arith

  poll-unread :
      {e : Error}
      → ltb w.now deadline ≡ true
      → (get_session id w).0 ≡ err e
      → (poll net (suc f) deadline id w).0 ≡ err (wrap "failed to get session status" e)
  unfolding poll
  poll-unread early missing = ground arith

  poll-done :
      {s : Session}
      → ltb w.now deadline ≡ true
      → (get_session id w).0 ≡ ok s
      → is_signed s ≡ true
      → (poll net (suc f) deadline id w).0 ≡ ok (signed s.signature)
  unfolding poll
  poll-done early read done = ground arith

  poll-failed :
      {s : Session}
      → ltb w.now deadline ≡ true
      → (get_session id w).0 ≡ ok s
      → is_signed s ≡ false
      → str_eq s.status failed ≡ true
      → (poll net (suc f) deadline id w).0 ≡ err (message "signing session failed")
  unfolding poll
  poll-failed early read unsigned lost = ground arith

  poll-again :
      {s : Session}
      → ltb w.now deadline ≡ true
      → (get_session id w).0 ≡ ok s
      → is_signed s ≡ false
      → str_eq s.status failed ≡ false
      → poll net (suc f) deadline id w ≡ poll net f deadline id (wait net (get_session id w).1)
  unfolding poll
  poll-again early read unsigned unfailed = ground arith

module _ {R : Redis} (net : Network R) (deadline : ℕ) (id : String) where
  wait-later :
      (w : World R) → RunsForward net → w.now + poll_interval ≤ (wait net (get_session id w).1).now
  unfolding wait
  wait-later w forward = omega (arith, forward (get_session id w).1, (get_session-SameData id w).1)

  -- Provided that the clock does not run backwards while the service waits: f + 1 turns are enough
  -- for the polling loop if f waits of two seconds reach the deadline, so that it does not run out
  -- of fuel.
  pub poll-fuelled :
      (f : ℕ) (w : World R)
      → RunsForward net
      → deadline ≤ w.now + f * poll_interval
      → (poll net (suc f) deadline id w).0 ≢ ok out_of_fuel
  poll-fuelled zero w forward fuelled =
      ground (arith, poll-late net deadline id zero w (ground arith))
  poll-fuelled (suc f) w forward fuelled = elim (Bool-cases (ltb w.now deadline)) [
    | inr over ↦ ground (arith, poll-late net deadline id (suc f) w over)
    | inl early ↦ elim (Outcome-cases (get_session id w).0) [
      | inr (e, missing) ↦ ground (arith, poll-unread net deadline id (suc f) w early missing)
      | inl (s, read) ↦ elim (Bool-cases (is_signed s)) [
        | inl done ↦ ground (arith, poll-done net deadline id (suc f) w early read done)
        | inr unsigned ↦ elim (Bool-cases (str_eq s.status failed)) [
          | inl lost ↦
              ground (arith, poll-failed net deadline id (suc f) w early read unsigned lost)
          | inr unfailed ↦
              let next = wait net (get_session id w).1 in
              ground (
                arith,
                poll-again net deadline id (suc f) w early read unsigned unfailed,
                poll-fuelled f next forward (omega (arith, wait-later w forward, fuelled)),
              )
        ]
      ]
    ]
  ]

  -- The state in which the loop begins its turn `k`, the first being 0.
  unfoldable pub turn : ℕ → World R → World R
  turn zero w = w
  turn (suc k) w = turn k (wait net (get_session id w).1)

  -- A signature that the polling loop ends with is not empty, and is the one of the session that
  -- GetSession reads, as completed, in one of the loop's turns: a turn that begins before the
  -- deadline, and whose read leaves the state in which the loop ends.
  pub poll-signed :
      (f : ℕ) (w : World R) {signature : String}
      → (poll net f deadline id w).0 ≡ ok (signed signature)
      → (k : ℕ) × (s : Session) × (k < f)
        × ((turn k w).now < deadline)
        × (get_session id (turn k w) ≡ (ok s, (poll net f deadline id w).1))
        × (s.status ≡ completed)
        × (s.signature ≡ signature)
        × (signature ≢ "")
  unfolding poll turn
  poll-signed zero w done = ground arith
  poll-signed (suc f) w {signature} done = elim (Bool-cases (ltb w.now deadline)) [
    | inr over ↦ ground (arith, poll-late net deadline id f w over)
    | inl early ↦ elim (Outcome-cases (get_session id w).0) [
      | inr (e, missing) ↦ ground (arith, poll-unread net deadline id f w early missing)
      | inl (s, read) ↦ elim (Bool-cases (is_signed s)) [
        | inl finished ↦
            let same : s.signature ≡ signature =
              ground (arith, poll-done net deadline id f w early read finished) in
            (
              0,
              s,
              omega arith,
              ground arith,
              ground arith,
              ground (arith, eq_iff s.status completed),
              same,
              ground (arith, eq_iff s.signature ""),
            )
        | inr unsigned ↦ elim (Bool-cases (str_eq s.status failed)) [
          | inl lost ↦ ground (arith, poll-failed net deadline id f w early read unsigned lost)
          | inr unfailed ↦
              let next = wait net (get_session id w).1 in
              let same = poll-again net deadline id f w early read unsigned unfailed in
              let (k, t, before, in_time, last, done_then, its, some_text) =
                poll-signed f next (ground (arith, same)) in
              (
                suc k,
                t,
                omega arith,
                in_time,
                ground (arith, last, same),
                done_then,
                its,
                some_text,
              )
        ]
      ]
    ]
  ]
