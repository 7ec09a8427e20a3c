-- ===== src/Hub/Claims/Payable.antt =====
-- What the users' claims on the batches of a release are worth is covered by what came back.
use native.Mathlib.Nat.{mul-le-mul_right}
use prism_auto_compounding_c.Prelude.{
  ℕ, zero, suc, String, ◌+◌, ◌-◌, ◌*◌, ◌/◌, ◌≤◌, ◌<◌, ◌≡◌, some, none, Option, List, [], ◌∷◌, arith,
  sum_by,
}
use prism_auto_compounding_c.Prelude.Assoc.{lookup}
use prism_auto_compounding_c.Prelude.Runs.{run_sum}
use prism_auto_compounding_c.Outcome.{ok}
use prism_auto_compounding_c.Platform.{Platform, decimal_one}
use prism_auto_compounding_c.Protocol.Hub.{UnbondHistory}
use prism_auto_compounding_c.Hub.Store.{Store}
use prism_auto_compounding_c.Hub.Validators.Whitelist.{Distinct}
use prism_auto_compounding_c.Hub.Unbond.Asked.{asked}
use prism_auto_compounding_c.Hub.Withdraw.{process_withdraw_rate}
use prism_auto_compounding_c.Hub.Withdraw.Counting.{expected, expected_run}
use prism_auto_compounding_c.Hub.Withdraw.Process.{process_withdraw_rate_lem}
use prism_auto_compounding_c.Hub.Withdraw.Shares.{unbonded_of, share_of}
use prism_auto_compounding_c.Hub.Withdraw.Solvency.{
  first_of, run_of, arrived, process_withdraw_rate-counted,
}
use prism_auto_compounding_c.Hub.Invariant.Handlers.{process_withdraw_rate-IsValid}
use prism_auto_compounding_c.Hub.Invariant.Reach.{Reach, Reach-IsValid}
use prism_auto_compounding_c.Hub.Claims.{asked_by, recorded_amount, IsCovered}
use prism_auto_compounding_c.Hub.Claims.Steps.{process_withdraw_rate-IsCovered}
use prism_auto_compounding_c.Hub.Claims.Reach.{Reach-IsCovered}

-- What a user's claim on a batch is worth at the batch's rate, and the claims of a group of
-- users on a run of batches.
abbrev pub worth_at : Option UnbondHistory → ℕ → ℕ
worth_at none n = 0
worth_at (some h) n = n * h.withdraw_rate / decimal_one

abbrev pub payable : Store → List String → ℕ → ℕ
payable s us k = sum_by (λ u. worth_at (lookup k s.histories) (asked s u k)) us

abbrev pub payable_run : Store → List String → ℕ → ℕ → ℕ
payable_run s us first n = run_sum (payable s us) first n

-- Rounding each claim down gives no more than rounding their sum.
worth_sum :
    (h : Option UnbondHistory) (f : String → ℕ) (us : List String)
    → sum_by (λ u. worth_at h (f u)) us ≤ worth_at h (sum_by f us)
worth_sum none f [] = omega arith
worth_sum none f (u ∷ us) = let ih = worth_sum none f us in omega arith
worth_sum (some h) f [] = omega arith
worth_sum (some h) f (u ∷ us) = let ih = worth_sum (some h) f us in omega arith

worth_le : (h : Option UnbondHistory) (n : ℕ) → n ≤ recorded_amount h → worth_at h n ≤ expected h
worth_le none n le = omega arith
worth_le (some h) n le =
    let scaled : n * h.withdraw_rate ≤ h.amount * h.withdraw_rate =
      mul-le-mul_right h.withdraw_rate le in
    omega arith

payable_le :
    (s : Store) (us : List String) (k : ℕ)
    → Distinct us
    → k < s.current_batch.id
    → IsCovered s
    → payable s us k ≤ expected (lookup k s.histories)
payable_le s us k d closed c =
    let claim : asked_by s us k ≤ recorded_amount (lookup k s.histories) =
      let all = c.claims us k d in ground (arith, all, closed) in
    let sums = worth_sum (lookup k s.histories) (λ u. asked s u k) us in
    let most = worth_le (lookup k s.histories) (asked_by s us k) claim in omega arith

payable_run_le :
    (s : Store) (us : List String) (first n : ℕ)
    → Distinct us
    → first + n ≤ s.current_batch.id
    → IsCovered s
    → payable_run s us first n ≤ expected_run s first n
payable_run_le s us first zero d closed c = omega arith
payable_run_le s us first (suc n) d closed c =
    let here = payable_le s us first d (omega arith) c in
    let ih = payable_run_le s us (suc first) n d (omega arith) c in omega arith

module _ ⦃p : Platform⦄ where
  -- In a hub that can be reached, what the claims of any group of different users on the
  -- batches of a release are worth at their new rates is at most what the release counts as
  -- arrived for these batches, where the loss, if there is one, times their number is at most
  -- 10^18 and leaves each batch something of its amount.
  pub payable_covered :
      (ht balance : ℕ) (s s' : Store) (us : List String)
      → Reach s
      → process_withdraw_rate ht balance s ≡ ok s'
      → Distinct us
      → run_of s s' * (expected_run s (first_of s) (run_of s s') - arrived s balance) ≤ decimal_one
      → ((k : ℕ) (h : UnbondHistory)
          → s.state.last_processed_batch < k
          → k ≤ s'.state.last_processed_batch
          → lookup k s.histories ≡ some h
          → arrived s balance < expected_run s (first_of s) (run_of s s')
          → share_of
              (expected_run s (first_of s) (run_of s s'))
              (expected_run s (first_of s) (run_of s s') - arrived s balance)
              h
            < unbonded_of h)
      → payable_run s' us (first_of s) (run_of s s') ≤ arrived s balance
  payable_covered ht balance s s' us r e d few small =
      let v = process_withdraw_rate-IsValid ht balance s s' e (Reach-IsValid s r) in
      let c = process_withdraw_rate-IsCovered ht balance s s' e (Reach-IsCovered s r) in
      let below = v.processed in
      let reached = (process_withdraw_rate_lem ht balance s s' e).run.reached in
      let claims = payable_run_le s' us (first_of s) (run_of s s') d (omega arith) c in
      let covered = process_withdraw_rate-counted ht balance s s' e few small in omega arith
