-- ===== src/Hub/Withdraw/Returns.antt =====
-- A release of batches whose coins have come back in full, as a whole.
use native.Mathlib.Nat.{zero-add}
use native.Mathlib.Decide.{ℕ_discrete}
use prism_auto_compounding_c.Prelude.{
  ℕ, zero, suc, ◌+◌, ◌-◌, ◌*◌, ◌/◌, ◌≤◌, ◌<◌, ◌≡◌, refl, true, some, none, some-injective, ap,
  arith, sym, ◌∙◌,
}
use prism_auto_compounding_c.Prelude.Assoc.{lookup}
use prism_auto_compounding_c.Outcome.{ok, ok_injective}
use prism_auto_compounding_c.Machine.{u64_max}
use prism_auto_compounding_c.Platform.{Platform, decimal_one, uint128_max}
use prism_auto_compounding_c.SignedInt.Laws.{from_subtraction_lem}
use prism_auto_compounding_c.Protocol.Hub.{UnbondHistory}
use prism_auto_compounding_c.Hub.Store.{Store}
use prism_auto_compounding_c.Hub.Withdraw.{
  due_history, rounds, count_unbonded, release_counted, process_withdraw_rate,
}
use prism_auto_compounding_c.Hub.Withdraw.Loops.{due_history-lookup}
use prism_auto_compounding_c.Hub.Withdraw.Counting.{expected, expected_run, distance, difference}
use prism_auto_compounding_c.Hub.Withdraw.Process.{process_withdraw_rate_lem}
use prism_auto_compounding_c.Hub.Withdraw.Shares.{unbonded_of, lost}
use prism_auto_compounding_c.Hub.Withdraw.Solvency.{first_of, arrived}
use prism_auto_compounding_c.Hub.Withdraw.Exact.{
  DueRun, count_unbonded_returns, release_history_exact, due_rounds, release_counted_returns,
}

-- `n` due batches from `first` on, each of some worth, none behind them.
pub record AllDue (s : Store) (ht first n : ℕ) : Type 0 where
  pub due :
      (k : ℕ)
      → first ≤ k
      → k < first + n
      → (h : UnbondHistory) × (due_history s ht k ≡ some h)
        × (0 < unbonded_of h)
        × (h.withdraw_rate ≤ uint128_max)
  pub stopped : due_history s ht (first + n) ≡ none

-- Every batch of a run is expected to bring at most what the run is.
expected-le-run :
    (s : Store) (first n k : ℕ)
    → first ≤ k
    → k < first + n
    → expected (lookup k s.histories) ≤ expected_run s first n
expected-le-run s first zero k low high = absurd (omega arith)
expected-le-run s first (suc n) k low high = elim (ℕ_discrete k first) [
  | yes here ↦ rw here (omega arith)
  | no there ↦ let ih = expected-le-run s (suc first) n k (omega arith) (omega arith) in omega arith
]

AllDue-DueRun :
    (s : Store) (ht first n : ℕ)
    → AllDue s ht first n
    → DueRun s ht first n (expected_run s first n)
AllDue-DueRun s ht first n a = record {
  due = λ k low high.
      let (h, due, worth, fits) = a.due k low high in
      let found = due_history-lookup s ht k h due in
      let most = rw found at (expected-le-run s first n k low high) in (h, due, worth, most, fits);
  stopped = a.stopped;
}

module _ ⦃p : Platform⦄ where
  open p use {uint_add_lem}

  -- The store once both loops are done.
  abbrev processed : Store → Store → ℕ → Store
  processed s s1 last = record s1 {
    state = record (s.state) { last_processed_batch = last; actual_unbonded_amount = 0 };
  }

  process_withdraw_rate_parts :
      (ht balance : ℕ) (s s1 : Store) (n last : ℕ)
      → count_unbonded (rounds s) s ht (first_of s) 0 0 ≡ ok (arrived s balance, n)
      → release_counted ht (arrived s balance) (arrived s balance) n s ≡ ok (last, s1)
      → arrived s balance ≤ uint128_max
      → first_of s ≤ u64_max
      → process_withdraw_rate ht balance s ≡ ok (processed s s1 last)
  unfolding process_withdraw_rate
  process_withdraw_rate_parts ht balance s s1 n last counted released fits low =
      let change = from_subtraction_lem balance s.state.prev_hub_balance in
      let sums =
        uint_add_lem s.state.actual_unbonded_amount (distance balance s.state.prev_hub_balance) in
      ground (arith, change, sums, counted, released)

  release_returns :
      (ht balance : ℕ) (s : Store) (n : ℕ)
      → DueRun s ht (first_of s) n (arrived s balance)
      → expected_run s (first_of s) n ≡ arrived s balance
      → arrived s balance ≤ uint128_max
      → first_of s + n ≤ u64_max
      → (s' : Store) × (process_withdraw_rate ht balance s ≡ ok s')
        × (s'.state.last_processed_batch ≡ s.state.last_processed_batch + n)
  release_returns ht balance s n r sum fits low =
      let total : ℕ = arrived s balance in
      let counted =
        count_unbonded_returns n (rounds s) s ht (first_of s) 0 0 total
          (due_rounds s ht (first_of s) n total (omega arith) r) r (omega arith) (omega arith)
          (omega arith) in
      let counted' = rw zero-add at (rw (zero-add, sum) at counted) in
      let (s1, released) = release_counted_returns n s ht total r fits low in
      let last = s.state.last_processed_batch + n in
      (
        processed s s1 last,
        process_withdraw_rate_parts ht balance s s1 n last counted' released fits (omega arith),
        refl,
      )

  -- The history of a batch that is released at its full worth.
  abbrev pub full_return : UnbondHistory → UnbondHistory
  full_return h = record h {
    withdraw_rate = unbonded_of h * decimal_one / h.amount;
    released = true;
  }

  full_returns :
      (ht balance : ℕ) (s s' : Store) (n : ℕ)
      → process_withdraw_rate ht balance s ≡ ok s'
      → s'.state.last_processed_batch ≡ s.state.last_processed_batch + n
      → AllDue s ht (first_of s) n
      → expected_run s (first_of s) n ≡ arrived s balance
      → arrived s balance ≤ uint128_max
      → (k : ℕ) (h : UnbondHistory) → first_of s ≤ k
      → k < first_of s + n
      → lookup k s.histories ≡ some h
      → lookup k s'.histories ≡ some (full_return h)
  full_returns ht balance s s' n e last a sum fits k h low high found =
      let total : ℕ = arrived s balance in
      let length : suc s'.state.last_processed_batch - first_of s ≡ n = omega arith in
      let run = (process_withdraw_rate_lem ht balance s s' e).run in
      let nothing_lost : difference total total ≡ lost 0 = ground arith in
      let (g, h', due, done, stored) =
        rw (length, sum, nothing_lost) at run.released k low (omega arith) in
      let (d, due', worth, most, rate) = (AllDue-DueRun s ht (first_of s) n a).due k low high in
      let old : g ≡ h = some-injective _ _ (sym (due_history-lookup s ht k g due) ∙ found) in
      let old' : d ≡ h = some-injective _ _ (sym (due_history-lookup s ht k d due') ∙ found) in
      let exact = release_history_exact total d worth (rw sum at most) fits rate in
      let new : h' ≡ full_return h = ok_injective (sym (rw old at done) ∙ rw old' at exact) in
      stored ∙ ap some new

  -- Where the due batches, each of some worth and with a rate that fits, have brought back in full
  -- what they were expected to, and the sum and the ids fit, the release goes through: it marks
  -- them all, each at the rate at which its claims are worth what it was expected to bring.
  pub process_withdraw_rate_returns :
      (ht balance : ℕ) (s : Store) (n : ℕ)
      → AllDue s ht (first_of s) n
      → expected_run s (first_of s) n ≡ arrived s balance
      → arrived s balance ≤ uint128_max
      → first_of s + n ≤ u64_max
      → (s' : Store) × (process_withdraw_rate ht balance s ≡ ok s')
        × (s'.state.last_processed_batch ≡ s.state.last_processed_batch + n)
        × ((k : ℕ) (h : UnbondHistory)
            → first_of s ≤ k
            → k < first_of s + n
            → lookup k s.histories ≡ some h
            → lookup k s'.histories ≡ some (full_return h))
  process_withdraw_rate_returns ht balance s n a sum fits low =
      let bounded = AllDue-DueRun s ht (first_of s) n a in
      let r = rw sum at bounded in
      let (s', run, last) = release_returns ht balance s n r sum fits low in
      (s', run, last, full_returns ht balance s s' n run last a sum fits)
