-- ===== src/Hub/Withdraw.antt =====
-- contracts/prism_hub/src/unbond.rs, `execute_withdraw_unbonded` and `process_withdraw_rate`:
-- batches whose coins are back are released at a rate that shares out what came back.
mod Tests
mod ReturnTests
pub mod Loops
pub mod Counting
pub mod Process
pub mod Removal
pub mod Payout
pub mod Shares
pub mod Sums
pub mod Solvency
pub mod Exact
pub mod Returns
pub mod Surplus
use prism_auto_compounding_c.Prelude.{
  ℕ, zero, suc, String, ◌+◌, Bool, true, Option, none, some, List, [], ◌∷◌, ltb, leb, ◌==◌,
  if◌then◌else◌,
}
use prism_auto_compounding_c.Prelude.Assoc.{lookup, top_key}
use prism_auto_compounding_c.Outcome.{
  Outcome, ok, panic, err, expect_ok, reject_if, no_withdrawable, unwrapped, out_of_fuel, ◌>>=◌,
  ◌>>◌,
}
use prism_auto_compounding_c.Machine.{u64_add, u64_sub}
use prism_auto_compounding_c.Platform.{Platform}
use prism_auto_compounding_c.SignedInt.{SignedInt, from_subtraction}
use prism_auto_compounding_c.Chain.{Env, MessageInfo, Querier, CosmosMsg, bank_send}
use prism_auto_compounding_c.Protocol.Hub.{UnbondHistory}
use prism_auto_compounding_c.Hub.Store.{
  Store, read_unbond_history, store_unbond_history, get_finished_amount, get_unbond_batches,
  remove_unbond_wait_list,
}

-- The head of both loops: the history at a batch id, unless there is none, its time has not
-- come or it is released, where the loop breaks.
unfoldable pub due_history : Store → ℕ → ℕ → Option UnbondHistory
unfolding read_unbond_history
due_history s historical_time i = elim (read_unbond_history s i) [
  | ok h ↦ if ltb historical_time h.time then none else if h.released then none else some h
  | _ ↦ none
]

-- Every round reads the next id, and no id above the largest is there.
abbrev pub rounds : Store → ℕ
rounds s = suc (suc (top_key s.histories))

module _ ⦃p : Platform⦄ where
  open p use {uint_add, uint_checked_sub, uint_mul_decimal, decimal_from_ratio}

  -- The first loop: the sum of the unbonded amounts, and the number of batches.
  unfoldable pub count_unbonded : ℕ → Store → ℕ → ℕ → ℕ → ℕ → Outcome (ℕ × ℕ)
  count_unbonded zero s historical_time i total batch_count = panic out_of_fuel
  count_unbonded (suc fuel) s historical_time i total batch_count =
      elim (due_history s historical_time i) [
        | none ↦ ok (total, batch_count)
        | some history ↦ do
          unbonded_amount ← uint_mul_decimal history.amount history.withdraw_rate
          total' ← uint_add total unbonded_amount
          batch_count' ← u64_add batch_count 1
          i' ← u64_add i 1
          count_unbonded fuel s historical_time i' total' batch_count'
      ]

  -- A batch's share of the difference is added if more came back than was expected, else
  -- subtracted, where the sign of the result is dropped.
  unfoldable pub actual_unbonded : SignedInt → ℕ → ℕ → Outcome ℕ
  actual_unbonded slashed_amount unbonded_amount slashed_of_batch =
      if slashed_amount.negative
      then (do surplus ← uint_checked_sub slashed_of_batch 1; uint_add unbonded_amount surplus)
      else (do
        slashed ←
            if slashed_amount.magnitude == 0
            then ok slashed_of_batch
            else uint_add slashed_of_batch 1
        difference ← from_subtraction unbonded_amount slashed
        ok difference.magnitude)

  unfoldable pub release_history : SignedInt → ℕ → UnbondHistory → Outcome UnbondHistory
  release_history slashed_amount total_unbonded_amount history = do
    unbonded_amount ← uint_mul_decimal history.amount history.withdraw_rate
    batch_slashing_weight ← decimal_from_ratio unbonded_amount total_unbonded_amount
    slashed_of_batch ← uint_mul_decimal slashed_amount.magnitude batch_slashing_weight
    actual ← actual_unbonded slashed_amount unbonded_amount slashed_of_batch
    new_withdraw_rate ← decimal_from_ratio actual history.amount
    ok (record history { withdraw_rate = new_withdraw_rate; released = true })

  -- The second loop: each batch gets its rate and is marked; `last` is the last one released.
  unfoldable pub release_batches : ℕ → SignedInt → ℕ → ℕ → ℕ → ℕ → Store → Outcome (ℕ × Store)
  release_batches zero slashed total historical_time iterator last s = panic out_of_fuel
  release_batches (suc fuel) slashed total historical_time iterator last s =
      elim (due_history s historical_time iterator) [
        | none ↦ ok (last, s)
        | some history ↦ do
          history' ← release_history slashed total history
          iterator' ← u64_add iterator 1
          release_batches fuel slashed total historical_time iterator' iterator
              (store_unbond_history s iterator history')
      ]

  -- `if batch_count >= 1`
  unfoldable pub release_counted : ℕ → ℕ → ℕ → ℕ → Store → Outcome (ℕ × Store)
  release_counted historical_time actual_unbonded_amount total batch_count s =
      if leb 1 batch_count
      then (do
        slashed_amount ← from_subtraction total actual_unbonded_amount
        first ← u64_add s.state.last_processed_batch 1
        release_batches (rounds s) slashed_amount total historical_time first
            s.state.last_processed_batch s)
      else ok (s.state.last_processed_batch, s)

  unfoldable pub process_withdraw_rate : ℕ → ℕ → Store → Outcome Store
  process_withdraw_rate historical_time hub_balance s = do
    balance_change ← from_subtraction hub_balance s.state.prev_hub_balance
    actual_unbonded_amount ← uint_add s.state.actual_unbonded_amount balance_change.magnitude
    first ← u64_add s.state.last_processed_batch 1
    (total, batch_count) ← count_unbonded (rounds s) s historical_time first 0 0
    (last, s') ← release_counted historical_time actual_unbonded_amount total batch_count s
    ok (record s' {
      state = record (s.state) { last_processed_batch = last; actual_unbonded_amount = 0 };
    })

  unfoldable pub execute_withdraw_unbonded :
      Querier → Env → MessageInfo → Store → Outcome (List CosmosMsg × Store)
  execute_withdraw_unbonded q env info s = do
    let coin_denom = s.parameters.underlying_coin_denom
    historical_time ← u64_sub env.time s.parameters.unbonding_period
    hub_balance ← q.balance env.contract coin_denom
    s1 ← process_withdraw_rate historical_time hub_balance s
    withdraw_amount ← expect_ok (get_finished_amount s1 info.sender) unwrapped
    reject_if (withdraw_amount == 0) (no_withdrawable coin_denom)
    let s2 = remove_unbond_wait_list s1 (get_unbond_batches s1 info.sender) info.sender
    prev_balance ← uint_checked_sub hub_balance withdraw_amount
    ok (
      bank_send info.sender (record { denom = coin_denom; amount = withdraw_amount } ∷ []) ∷ [],
      record s2 { state = record (s2.state) { prev_hub_balance = prev_balance } },
    )
