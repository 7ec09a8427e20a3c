-- ===== src/Hub/Withdraw/Tests.antt =====
-- A withdrawal after a slashing of one tenth.
use prism_auto_compounding_c.Prelude.{ℕ, ◌-◌, ◌≡◌, refl, true, List, [], ◌∷◌, ◌≤◌, ◌<◌, some, arith}
use prism_auto_compounding_c.Outcome.{ok, panic, out_of_fuel}
use prism_auto_compounding_c.Platform.Reference.{reference}
use prism_auto_compounding_c.Chain.{CosmosMsg, bank_send}
use prism_auto_compounding_c.SignedInt.{from_subtraction}
use prism_auto_compounding_c.Hub.Store.{
  Store, set_wait_list, store_unbond_history, read_unbond_history, released_batches,
  get_unbond_batches, add_withdrawable, withdrawable_from, get_finished_amount, erase_all,
  remove_unbond_wait_list,
}
use prism_auto_compounding_c.Hub.Sample.{store, querier, env, from_user, uluna, first_batch}
use prism_auto_compounding_c.Hub.Withdraw.{
  due_history, count_unbonded, actual_unbonded, release_history, release_batches, release_counted,
  process_withdraw_rate, execute_withdraw_unbonded,
}
use prism_auto_compounding_c.Hub.Withdraw.Process.{
  Processed, process_withdraw_rate_ends, process_withdraw_rate_lem,
}
use prism_auto_compounding_c.Hub.Withdraw.Counting.{expected_run}
use prism_auto_compounding_c.Prelude.Assoc.{lookup}
use prism_auto_compounding_c.Protocol.Hub.{UnbondHistory}
use prism_auto_compounding_c.Hub.Withdraw.Shares.{unbonded_of, share_of}
use prism_auto_compounding_c.Hub.Withdraw.Solvency.{
  first_of, run_of, received, process_withdraw_rate_covers,
}
use prism_auto_compounding_c.Hub.Withdraw.Payout.{PaysOut, withdraw_once}

-- The store after the release, and after Bob's withdrawal.
abbrev released_store : Store
released_store = record store {
  histories = (1, record first_batch { withdraw_rate = 890000000000000000; released = true }) ∷ [];
  state = record (store.state) { last_processed_batch = 1 };
}

process_example : process_withdraw_rate 30 90 store ≡ ok released_store
unfolding process_withdraw_rate from_subtraction count_unbonded due_history read_unbond_history
    release_counted release_batches release_history actual_unbonded store_unbond_history
process_example = refl

process_withdraw_rate_lem_example : Processed 30 90 store released_store
process_withdraw_rate_lem_example =
    process_withdraw_rate_lem 30 90 store released_store process_example

abbrev paid_store : Store
paid_store = record (set_wait_list released_store "bob" ((2, 10) ∷ [])) {
  state = record (released_store.state) { prev_hub_balance = 37 };
}

abbrev paid_messages : List CosmosMsg
paid_messages = bank_send "bob" (uluna 53 ∷ []) ∷ []

withdraw_example :
    execute_withdraw_unbonded querier env (from_user "bob") store ≡ ok (paid_messages, paid_store)
unfolding execute_withdraw_unbonded process_withdraw_rate from_subtraction count_unbonded
    due_history read_unbond_history release_counted release_batches release_history actual_unbonded
    store_unbond_history get_finished_amount withdrawable_from add_withdrawable get_unbond_batches
    released_batches remove_unbond_wait_list erase_all
withdraw_example = refl

withdraw_once_example :
    (balance : ℕ) × (s1 : Store) × (querier.balance env.contract "uluna" ≡ ok balance)
    × (process_withdraw_rate (130 - 100) balance store ≡ ok s1)
    × PaysOut env "bob" "uluna" balance s1 paid_store paid_messages
withdraw_once_example =
    withdraw_once querier env (from_user "bob") store paid_store paid_messages withdraw_example

process_withdraw_rate_ends_example : (process_withdraw_rate 30 90 store ≡ panic out_of_fuel) → ⊥
process_withdraw_rate_ends_example = process_withdraw_rate_ends 30 90 store

the_first :
    (k : ℕ) (h : UnbondHistory)
    → 0 < k
    → k ≤ 1
    → lookup k store.histories ≡ some h
    → 90 < 100
    → share_of 100 10 h < unbonded_of h
the_first k h low high found loss =
    let only : k ≡ 1 = omega arith in
    let here : some first_batch ≡ some h = rw only at found in
    let same : h ≡ first_batch = cc in rw same (omega arith)

process_withdraw_rate_covers_example :
    expected_run released_store (first_of store) (run_of store released_store) ≤ received store 90
process_withdraw_rate_covers_example =
    process_withdraw_rate_covers 30 90 store released_store process_example (omega arith)
      (omega arith) the_first
