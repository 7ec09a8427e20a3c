-- ===== src/Hub/Clock/Tests.antt =====
-- Alice withdraws at the very end of her batch's unbonding period.
use prism_auto_compounding_c.Prelude.{ℕ, ◌≤◌, ◌≡◌, refl, true, some, none, [], ◌∷◌, arith}
use prism_auto_compounding_c.Outcome.{ok}
use prism_auto_compounding_c.Platform.{decimal_one}
use prism_auto_compounding_c.Platform.Reference.{reference}
use prism_auto_compounding_c.Chain.{bank_send}
use prism_auto_compounding_c.SignedInt.{from_subtraction}
use prism_auto_compounding_c.Protocol.Hub.{UnbondHistory, receive, update_config}
use prism_auto_compounding_c.Hub.Store.{
  Store, read_unbond_history, store_unbond_history, released_batches, get_unbond_batches,
  add_withdrawable, withdrawable_from, get_finished_amount, query_get_finished_amount, erase_all,
  remove_unbond_wait_list,
}
use prism_auto_compounding_c.Hub.Sample.{querier, env, from_user}
use prism_auto_compounding_c.Hub.Query.{query_withdrawable_unbonded}
use prism_auto_compounding_c.Hub.Withdraw.{
  due_history, count_unbonded, actual_unbonded, release_history, release_batches, release_counted,
  process_withdraw_rate, execute_withdraw_unbonded,
}
use prism_auto_compounding_c.Hub.Invariant.Scenario.{
  setup, owner, setup_messages, new_store, instantiate_run, update_config_run, token_store, later,
  from_alice, closed_batch, closed_store, unbond_messages, unbond_run, evening, paid_store,
  paid_messages,
}
use prism_auto_compounding_c.Hub.Clock.{Clocked, opened, ticked}
use prism_auto_compounding_c.Hub.Clock.Released.{withdrawal-releases}
use prism_auto_compounding_c.Hub.Clock.Queried.{withdrawal-query}

closed-Clocked : Clocked closed_store 200
closed-Clocked =
    ticked querier later (from_user "token") (receive from_alice) token_store closed_store
      unbond_messages 130
      (ticked querier env owner (update_config (some "token") none) new_store token_store [] 130
        (opened env owner setup new_store setup_messages instantiate_run) (omega arith)
        update_config_run (omega arith))
      (omega arith) unbond_run (omega arith)

withdrawal_run :
    execute_withdraw_unbonded querier evening (from_user "alice") closed_store
    ≡ ok (paid_messages, paid_store)
unfolding execute_withdraw_unbonded process_withdraw_rate from_subtraction count_unbonded
    due_history read_unbond_history release_counted release_batches release_history actual_unbonded
    store_unbond_history get_finished_amount withdrawable_from add_withdrawable get_unbond_batches
    released_batches remove_unbond_wait_list erase_all
withdrawal_run = refl

-- The query at that second does not yet count the batch that the withdrawal pays.
boundary_query :
    query_withdrawable_unbonded closed_store "alice" evening ≡ ok (record { withdrawable = 0 })
unfolding query_withdrawable_unbonded query_get_finished_amount withdrawable_from add_withdrawable
    read_unbond_history
boundary_query = refl

abbrev released_one : UnbondHistory
released_one = record closed_batch { withdraw_rate = decimal_one; released = true }

withdrawal-releases_example : (true ≡ true → 300 ≤ 300) × (300 ≤ 300 → true ≡ true)
withdrawal-releases_example =
    withdrawal-releases querier evening (from_user "alice") closed_store paid_store paid_messages
      200 1 released_one closed-Clocked (omega arith) withdrawal_run refl

withdrawal-query_example :
    (balance : ℕ) × (s1 : Store) × (amount : ℕ) × ((process_withdraw_rate 200 balance closed_store
        ≡ ok s1)
      × (query_get_finished_amount s1 "alice" 201 ≡ ok amount)
      × (paid_messages ≡ bank_send "alice" (record { denom = "uluna"; amount = amount } ∷ []) ∷ []))
withdrawal-query_example =
    withdrawal-query querier evening (from_user "alice") closed_store paid_store paid_messages 200
      closed-Clocked (omega arith) withdrawal_run
