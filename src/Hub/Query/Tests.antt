-- ===== src/Hub/Query/Tests.antt =====
-- Bob asks what he can withdraw from a released batch, and withdraws it.
use prism_auto_compounding_c.Prelude.{◌≡◌, refl, true, List, [], ◌∷◌}
use prism_auto_compounding_c.Outcome.{ok}
use prism_auto_compounding_c.Platform.Reference.{reference}
use prism_auto_compounding_c.Chain.{CosmosMsg, bank_send}
use prism_auto_compounding_c.SignedInt.{from_subtraction}
use prism_auto_compounding_c.Protocol.Hub.{UnbondHistory}
use prism_auto_compounding_c.Hub.Store.{
  Store, set_wait_list, read_unbond_history, released_batches, get_unbond_batches, add_withdrawable,
  withdrawable_from, get_finished_amount, query_get_finished_amount, erase_all,
  remove_unbond_wait_list,
}
use prism_auto_compounding_c.Hub.Sample.{store, querier, env, from_user, uluna, first_batch}
use prism_auto_compounding_c.Hub.Query.{query_withdrawable_unbonded}
use prism_auto_compounding_c.Hub.Withdraw.{
  due_history, count_unbonded, release_counted, process_withdraw_rate, execute_withdraw_unbonded,
}

abbrev released_batch : UnbondHistory
released_batch = record first_batch { withdraw_rate = 890000000000000000; released = true }

abbrev released_store : Store
released_store = record store {
  histories = (1, released_batch) ∷ [];
  state = record (store.state) { last_processed_batch = 1 };
}

abbrev paid_store : Store
paid_store = record (set_wait_list released_store "bob" ((2, 10) ∷ [])) {
  state = record (released_store.state) { prev_hub_balance = 37 };
}

abbrev paid_messages : List CosmosMsg
paid_messages = bank_send "bob" (uluna 53 ∷ []) ∷ []

withdraw_run :
    execute_withdraw_unbonded querier env (from_user "bob") released_store
    ≡ ok (paid_messages, paid_store)
unfolding execute_withdraw_unbonded process_withdraw_rate from_subtraction count_unbonded
    due_history read_unbond_history release_counted get_finished_amount withdrawable_from
    add_withdrawable get_unbond_batches released_batches remove_unbond_wait_list erase_all
withdraw_run = refl

query_run : query_withdrawable_unbonded released_store "bob" env ≡ ok (record { withdrawable = 53 })
unfolding query_withdrawable_unbonded query_get_finished_amount withdrawable_from add_withdrawable
    read_unbond_history
query_run = refl
