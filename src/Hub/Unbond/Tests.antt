-- ===== src/Hub/Unbond/Tests.antt =====
-- Bob unbonds ninety tokens after the epoch, which closes the batch.
use prism_auto_compounding_c.Prelude.{ℕ, ◌≡◌, refl, false, List, [], ◌∷◌}
use prism_auto_compounding_c.Outcome.{ok, unwrap_or}
use prism_auto_compounding_c.Platform.{decimal_one}
use prism_auto_compounding_c.Platform.Reference.{reference}
use prism_auto_compounding_c.Chain.{CosmosMsg, undelegate, wasm_execute, token_burn}
use prism_auto_compounding_c.Protocol.Hub.{State, CurrentBatch, UnbondHistory}
use prism_auto_compounding_c.Hub.Store.{
  Store, set_wait_list, store_unbond_wait_list, store_unbond_history,
}
use prism_auto_compounding_c.Hub.Sample.{store, querier, env, uluna, first_batch}
use prism_auto_compounding_c.Hub.Rates.{update_exchange_rate}
use prism_auto_compounding_c.Hub.Slashing.{query_total_issued, sum_delegations, reconcile, slashing}
use prism_auto_compounding_c.Hub.Pick.{undelegate_some, pick_rounds, pick_validator}
use prism_auto_compounding_c.Hub.Unbond.{
  amount_less_fee, close_batch, close_if_due, request_unbond, save_unbond, execute_unbond,
}
use prism_auto_compounding_c.Hub.Unbond.Effect.{Requests, Saves, execute_unbond_lem}

abbrev second_batch : UnbondHistory
second_batch = record {
  batch_id = 2;
  time = 130;
  amount = 100;
  applied_exchange_rate = decimal_one;
  withdraw_rate = decimal_one;
  released = false;
}

abbrev asked_store : Store
asked_store = set_wait_list store "bob" ((1, 60) ∷ (2, 100) ∷ [])

abbrev closed_store : Store
closed_store = record asked_store {
  histories = (1, first_batch) ∷ (2, second_batch) ∷ [];
  current_batch = record { id = 3; requested_with_fee = 0 };
  state = record (store.state) { total_bond_amount = 900; last_unbonded_time = 130 };
}

abbrev unbond_messages : List CosmosMsg
unbond_messages = undelegate "val1" (uluna 100) ∷ wasm_execute "token" (token_burn 90) [] ∷ []

unbond_run : execute_unbond querier env 90 "bob" store ≡ ok (unbond_messages, closed_store)
unfolding execute_unbond slashing sum_delegations query_total_issued reconcile request_unbond
    amount_less_fee store_unbond_wait_list update_exchange_rate save_unbond close_if_due close_batch
    pick_validator pick_rounds undelegate_some store_unbond_history
unbond_run = refl

execute_unbond_example :
    (s1 : Store) × (supply : ℕ) × (batch : CurrentBatch) × (st : State) × (s2 : Store) × (slashing
        querier env store
      ≡ ok s1)
    × (unwrap_or (query_total_issued querier s1) 0 ≡ ok supply)
    × Requests 90 supply "bob" store.current_batch s1 batch st s2
    × Saves querier env 90 batch st s2 closed_store unbond_messages
execute_unbond_example =
    execute_unbond_lem querier env 90 "bob" store closed_store unbond_messages unbond_run
