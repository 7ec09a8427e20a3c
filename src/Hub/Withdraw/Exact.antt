-- ===== src/Hub/Withdraw/Exact.antt =====
-- A release of batches whose coins have come back in full: it goes through.
use native.Mathlib.Nat.{div-le_of_le-mul}
use prism_auto_compounding_c.Prelude.{
  ℕ, zero, suc, ◌+◌, ◌*◌, ◌/◌, ◌≤◌, ◌<◌, ◌≡◌, ◌≢◌, refl, true, some, none, arith, ◌∙◌,
}
use prism_auto_compounding_c.Outcome.{ok}
use prism_auto_compounding_c.Machine.{u64_max}
use prism_auto_compounding_c.Platform.{Platform, decimal_one, uint128_max}
use prism_auto_compounding_c.SignedInt.Laws.{from_subtraction_lem}
use prism_auto_compounding_c.Protocol.Hub.{UnbondHistory}
use prism_auto_compounding_c.Hub.Store.{Store, store_unbond_history}
use prism_auto_compounding_c.Hub.Withdraw.{
  due_history, rounds, count_unbonded, actual_unbonded, release_history, release_batches,
  release_counted,
}
use prism_auto_compounding_c.Hub.Withdraw.Loops.{
  due_history_top, due_history-lookup, due_history-store,
}
use prism_auto_compounding_c.Hub.Withdraw.Counting.{expected_run, Counts}
use prism_auto_compounding_c.Hub.Withdraw.Shares.{unbonded_of, lost}
use prism_auto_compounding_c.Hub.Withdraw.Solvency.{first_of}

-- `n` due batches from `first` on, each of some worth that is at most `total`, none behind them.
pub record DueRun (s : Store) (ht first n total : ℕ) : Type 0 where
  pub due :
      (k : ℕ)
      → first ≤ k
      → k < first + n
      → (h : UnbondHistory) × (due_history s ht k ≡ some h)
        × (0 < unbonded_of h)
        × (unbonded_of h ≤ total)
        × (h.withdraw_rate ≤ uint128_max)
  pub stopped : due_history s ht (first + n) ≡ none

-- The run behind its first batch, in a store where that batch has changed.
DueRun-tail :
    (s s' : Store) (ht first n total : ℕ)
    → ((k : ℕ) → k ≢ first → due_history s' ht k ≡ due_history s ht k)
    → DueRun s ht first (suc n) total
    → DueRun s' ht (first + 1) n total
DueRun-tail s s' ht first n total same r = record {
  due = λ k low high.
      let (h, due, worth, most, fits) = r.due k (omega arith) (omega arith) in
      (h, same k (λ e. omega arith) ∙ due, worth, most, fits);
  stopped =
      let at : first + 1 + n ≡ first + suc n = omega arith in
      rw at (same (first + suc n) (λ e. omega arith) ∙ r.stopped);
}

module _ ⦃p : Platform⦄ where
  open p use {uint_add_lem, uint_checked_sub_lem, uint_mul_decimal_lem, decimal_from_ratio_lem}

  pub count_unbonded_returns :
      (n fuel : ℕ) (s : Store) (ht i total batches most : ℕ)
      → n < fuel
      → DueRun s ht i n most
      → total + expected_run s i n ≤ uint128_max
      → batches + n ≤ u64_max
      → i + n ≤ u64_max
      → count_unbonded fuel s ht i total batches ≡ ok (total + expected_run s i n, batches + n)
  unfolding count_unbonded
  count_unbonded_returns n zero s ht i total batches most some_fuel r fits small low =
      absurd (omega arith)
  count_unbonded_returns zero (suc fuel) s ht i total batches most some_fuel r fits small low =
      let at : i + 0 ≡ i = omega arith in let stop = rw at at (r.stopped) in ground arith
  count_unbonded_returns (suc n) (suc fuel) s ht i total batches most some_fuel r fits small low =
      let (h, due, worth, bound, rate) = r.due i (omega arith) (omega arith) in
      let found = due_history-lookup s ht i h due in
      let rest = DueRun-tail s s ht i n most (λ k ne. refl) r in
      let unbonded : ℕ = unbonded_of h in
      ground (
        arith,
        due,
        found,
        uint_mul_decimal_lem h.amount h.withdraw_rate,
        uint_add_lem total unbonded,
        count_unbonded_returns n fuel s ht (i + 1) (total + unbonded) (batches + 1) most
            (omega arith) rest,
      )

  -- Where nothing was lost, a batch keeps its worth.
  pub release_history_exact :
      (total : ℕ) (h : UnbondHistory)
      → 0 < unbonded_of h
      → unbonded_of h ≤ total
      → total ≤ uint128_max
      → h.withdraw_rate ≤ uint128_max
      → release_history (lost 0) total h
        ≡ ok (record h { withdraw_rate = unbonded_of h * decimal_one / h.amount; released = true })
  unfolding release_history actual_unbonded
  release_history_exact total h worth bound fits rate =
      let u : ℕ = unbonded_of h in
      let w : ℕ = u * decimal_one / total in
      let weight : w ≤ decimal_one = div-le_of_le-mul total (omega arith) in
      let new_rate : u * decimal_one / h.amount ≤ h.withdraw_rate =
        div-le_of_le-mul h.amount (omega arith) in
      let some_tokens : 0 < h.amount = ground arith in
      ground (
        arith,
        uint_mul_decimal_lem h.amount h.withdraw_rate,
        decimal_from_ratio_lem u total,
        uint_mul_decimal_lem 0 w,
        from_subtraction_lem u 0,
        decimal_from_ratio_lem u h.amount,
      )

  release_batches_returns :
      (n fuel : ℕ) (s : Store) (total ht i last : ℕ)
      → n < fuel
      → i ≡ suc last
      → DueRun s ht i n total
      → total ≤ uint128_max
      → i + n ≤ u64_max
      → (s' : Store) × (release_batches fuel (lost 0) total ht i last s ≡ ok (last + n, s'))
  unfolding release_batches
  release_batches_returns n zero s total ht i last some_fuel at r fits low = absurd (omega arith)
  release_batches_returns zero (suc fuel) s total ht i last some_fuel at r fits low =
      let eq : i + 0 ≡ i = omega arith in let stop = rw eq at (r.stopped) in (s, ground arith)
  release_batches_returns (suc n) (suc fuel) s total ht i last some_fuel at r fits low =
      let (h, due, worth, bound, rate) = r.due i (omega arith) (omega arith) in
      let h' : UnbondHistory = record h {
        withdraw_rate = unbonded_of h * decimal_one / h.amount;
        released = true;
      } in
      let s1 = store_unbond_history s i h' in
      let rest = DueRun-tail s s1 ht i n total (λ k ne. due_history-store s ht k i h' ne) r in
      let done = release_history_exact total h worth bound fits rate in
      let (s', run) =
        release_batches_returns n fuel s1 total ht (i + 1) i (omega arith) (omega arith) rest fits
          (omega arith) in
      (s', ground (arith, due, done, run))

  -- There are fewer due batches than rounds.
  pub due_rounds :
      (s : Store) (ht first n total : ℕ) → 0 < first → DueRun s ht first n total → n < rounds s
  due_rounds s ht first zero total pos r = omega arith
  due_rounds s ht first (suc n) total pos r =
      let (h, due, _, _, _) = r.due (first + n) (omega arith) (omega arith) in
      let top = due_history_top s ht (first + n) h due in omega arith

  DueRun-Counts :
      (s : Store) (ht first n total : ℕ) → DueRun s ht first n total → Counts s ht first n
  DueRun-Counts s ht first n total r = record {
    due = λ k low high. let (h, due, _, _, _) = r.due k low high in rw due (λ none_some. cc);
    stopped = r.stopped;
  }

  pub release_counted_returns :
      (n : ℕ) (s : Store) (ht total : ℕ)
      → DueRun s ht (first_of s) n total
      → total ≤ uint128_max
      → first_of s + n ≤ u64_max
      → (s' : Store) × (release_counted ht total total n s
          ≡ ok (s.state.last_processed_batch + n, s'))
  unfolding release_counted
  release_counted_returns zero s ht total r fits low = (s, ground arith)
  release_counted_returns (suc n) s ht total r fits low =
      let last = s.state.last_processed_batch in
      let (s', run) =
        release_batches_returns (suc n) (rounds s) s total ht (last + 1) last
          (due_rounds s ht (first_of s) (suc n) total (omega arith) r) (omega arith) r fits low in
      (s', ground (arith, from_subtraction_lem total total, run))
