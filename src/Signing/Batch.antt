-- ===== src/Signing/Batch.antt =====
-- signing/service.go, BatchSign. One goroutine signs each message, and writes its outcome under its
-- index into one of two arrays, under a lock; a schedule is the list of the indices in the order in
-- which they get the lock. The two arrays, of results and of errors, are one of outcomes, and an
-- array is a function of the index.
use go_mpc_wallet.Base.{
  ℕ, zero, suc, ◌+◌, ◌≤◌, ◌<◌, ◌≡◌, refl, inl, inr, Bool, true, false, ◌||◌, Option, none, some,
  List, [], ◌∷◌, length, ◌==◌, if◌then◌else◌, arith,
}
use go_mpc_wallet.Storage.World.{Outcome, ok, err, message, Outcome-cases}
use go_mpc_wallet.Signing.Types.{SignResponse, BatchSignResponse}

abbrev pub Slots : Type 0
Slots = ℕ → Option (Outcome SignResponse)

abbrev set_slot : ℕ → Outcome SignResponse → Slots → Slots
set_slot i r slots j = if i == j then some r else slots j

-- The writes of the goroutines, in the order of the schedule.
unfoldable pub run_schedule : (ℕ → Outcome SignResponse) → List ℕ → Slots → Slots
run_schedule outcome [] slots = slots
run_schedule outcome (i ∷ later) slots = run_schedule outcome later (set_slot i (outcome i) slots)

pub record Count : Type 0 where
  pub success : ℕ
  pub failed : ℕ
  pub valid_signatures : List SignResponse

-- One turn of the loop that counts, with what the later turns come to.
abbrev counted : Option (Outcome SignResponse) → Count → Count
counted none c = c
counted (some (err _)) c = record c { failed = suc c.failed }
counted (some (ok r)) c = record c {
  success = suc c.success;
  valid_signatures = r ∷ c.valid_signatures;
}

-- The turns from index `i` on, `n` of them.
unfoldable pub count_results : ℕ → ℕ → Slots → Count
count_results zero i slots = record { success = 0; failed = 0; valid_signatures = [] }
count_results (suc n) i slots = counted (slots i) (count_results n (suc i) slots)

abbrev to_response : ℕ → Count → BatchSignResponse
to_response n c = record {
  signatures = c.valid_signatures;
  total = n;
  success = c.success;
  failed = c.failed;
}

unfoldable pub batch_sign : ℕ → (ℕ → Outcome SignResponse) → List ℕ → Outcome BatchSignResponse
batch_sign zero outcome schedule = err (message "no messages to sign")
batch_sign (suc n) outcome schedule =
    ok (to_response (suc n) (count_results (suc n) 0 (run_schedule outcome schedule λ _. none)))

unfoldable pub occurs : ℕ → List ℕ → Bool
occurs i [] = false
occurs i (j ∷ js) = j == i || occurs i js

-- The signatures among the outcomes, in the order of the messages.
abbrev cons_ok : Outcome SignResponse → List SignResponse → List SignResponse
cons_ok (ok r) rs = r ∷ rs
cons_ok (err _) rs = rs

unfoldable pub successes : ℕ → ℕ → (ℕ → Outcome SignResponse) → List SignResponse
successes zero i outcome = []
successes (suc n) i outcome = cons_ok (outcome i) (successes n (suc i) outcome)

module _ (outcome : ℕ → Outcome SignResponse) where
  run_schedule-slot :
      (schedule : List ℕ) (slots : Slots) (i : ℕ)
      → run_schedule outcome schedule slots i
        ≡ (if occurs i schedule then some (outcome i) else slots i)
  unfolding run_schedule occurs
  run_schedule-slot [] slots i = refl
  run_schedule-slot (j ∷ later) slots i =
      ground (arith, run_schedule-slot later (set_slot j (outcome j) slots) i)

  -- What the turns from `i` on come to, where every slot is filled.
  IsCount : ℕ → ℕ → Count → Type 0
  IsCount n i c =
      (c.success + c.failed ≡ n)
      × (length c.valid_signatures ≡ c.success)
      × (c.valid_signatures ≡ successes n i outcome)

  count_results-full :
      (n i : ℕ) (slots : Slots)
      → ((j : ℕ) → i ≤ j → j < i + n → slots j ≡ some (outcome j))
      → IsCount n i (count_results n i slots)
  unfolding count_results successes IsCount
  count_results-full zero i slots full = ground arith
  count_results-full (suc n) i slots full =
      let here = full i (omega arith) (omega arith) in
      let rest =
        count_results-full n (suc i) slots (λ j le lt. full j (omega arith) (omega arith)) in
      elim (Outcome-cases (outcome i)) [
        | inl (r, good) ↦ ground (arith, here, rest)
        | inr (e, bad) ↦ ground (arith, here, rest)
      ]

  -- For at least one message, and in whatever order the goroutines write their outcomes, provided
  -- that each of them does: BatchSign counts every message as a success or as a failure, and
  -- returns the signatures of the successes in the order of the messages, as many as it counts.
  pub batch_sign-ok :
      (n : ℕ) (schedule : List ℕ)
      → 0 < n
      → ((j : ℕ) → j < n → occurs j schedule ≡ true)
      → (b : BatchSignResponse) × (batch_sign n outcome schedule ≡ ok b)
        × (b.total ≡ n)
        × (b.success + b.failed ≡ n)
        × (length b.signatures ≡ b.success)
        × (b.signatures ≡ successes n 0 outcome)
  unfolding batch_sign IsCount
  batch_sign-ok zero schedule some_message all = absurd (omega arith)
  batch_sign-ok (suc n) schedule some_message all =
      let slots = run_schedule outcome schedule (λ _. none) in
      let (sum, size, same) = count_results-full (suc n) 0 slots (λ j _ lt.
        ground (arith, run_schedule-slot schedule (λ _. none) j, all j (omega (arith, lt)))) in
      (to_response (suc n) (count_results (suc n) 0 slots), refl, refl, sum, size, same)
