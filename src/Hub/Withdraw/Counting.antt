-- ===== src/Hub/Withdraw/Counting.antt =====
-- The first loop of `process_withdraw_rate`: it sums up a run of due batches.
use prism_auto_compounding_c.Prelude.{
  ℕ, zero, suc, ◌+◌, ◌*◌, ◌-◌, ◌/◌, ◌≤◌, ◌<◌, ◌≡◌, ◌≢◌, inl, inr, Option, none, some, arith, ltb,
  if◌then◌else◌, Option-cases,
}
use prism_auto_compounding_c.Prelude.Assoc.{lookup}
use prism_auto_compounding_c.Outcome.{ok}
use native.Mathlib.Decide.{ℕ_discrete}
use prism_auto_compounding_c.Platform.{Platform, decimal_one}
use prism_auto_compounding_c.SignedInt.{SignedInt}
use prism_auto_compounding_c.Protocol.Hub.{UnbondHistory}
use prism_auto_compounding_c.Hub.Store.{Store}
use prism_auto_compounding_c.Hub.Withdraw.{due_history, count_unbonded}
use prism_auto_compounding_c.Hub.Withdraw.Loops.{due_history-lookup}

-- What a batch was expected to bring back, and what a run of batches was.
abbrev pub expected : Option UnbondHistory → ℕ
expected none = 0
expected (some h) = h.amount * h.withdraw_rate / decimal_one

abbrev pub expected_run : Store → ℕ → ℕ → ℕ
expected_run s first zero = 0
expected_run s first (suc n) = expected (lookup first s.histories) + expected_run s (suc first) n

-- The distance of two numbers, and the exact signed difference.
abbrev pub distance : ℕ → ℕ → ℕ
distance a b = if ltb a b then b - a else a - b

abbrev pub difference : ℕ → ℕ → SignedInt
difference a b = record { magnitude = distance a b; negative = ltb a b }

-- The first loop found `n` due batches from `first` on, and none behind them.
pub record Counts (s : Store) (ht first n : ℕ) : Type 0 where
  pub due : (k : ℕ) → first ≤ k → k < first + n → due_history s ht k ≢ none
  pub stopped : due_history s ht (first + n) ≡ none

module _ ⦃p : Platform⦄ where
  open p use {uint_add, uint_mul_decimal_lem, uint_add_lem}

  pub count_unbonded_run :
      (fuel : ℕ) (s : Store) (ht i total batches total' batches' : ℕ)
      → count_unbonded fuel s ht i total batches ≡ ok (total', batches')
      → (n : ℕ) × (batches' ≡ batches + n) × (total' ≡ total + expected_run s i n) × Counts s ht i n
  unfolding count_unbonded
  count_unbonded_run zero s ht i total batches total' batches' e = cc
  count_unbonded_run (suc fuel) s ht i total batches total' batches' e =
      elim (Option-cases (due_history s ht i)) [
        | inl stop ↦ (
          0,
          ground arith,
          ground arith,
          record {
            due = λ k low high. absurd (omega arith);
            stopped = let at : i + 0 ≡ i = omega arith in rw at stop;
          },
        )
        | inr (h, due) ↦
            let unbonded : ℕ = h.amount * h.withdraw_rate / decimal_one in
            let (n, counted, summed, rest) =
              count_unbonded_run fuel s ht (i + 1) (total + unbonded) (batches + 1) total' batches'
                (ground (
                  arith,
                  uint_mul_decimal_lem h.amount h.withdraw_rate,
                  uint_add_lem total unbonded,
                )) in
            (
              suc n,
              omega arith,
              ground (arith, due_history-lookup s ht i h due),
              record {
                due = λ k low high. elim (ℕ_discrete k i) [
                  | yes here ↦ rw here (rw due (λ none_some. cc))
                  | no there ↦ rest.due k (omega arith) (omega arith)
                ];
                stopped = let at : i + suc n ≡ i + 1 + n = omega arith in rw at rest.stopped;
              },
            )
      ]
