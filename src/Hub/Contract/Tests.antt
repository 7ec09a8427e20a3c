-- ===== src/Hub/Contract/Tests.antt =====
-- A paused hub, its owner, and a stranger.
use prism_auto_compounding_c.Prelude.{◌≡◌, refl, true, some, [], List, ◌∷◌}
use prism_auto_compounding_c.Outcome.{ok, err, paused}
use prism_auto_compounding_c.Platform.Reference.{reference}
use prism_auto_compounding_c.Protocol.Hub.{withdraw_unbonded, pause, update_global_index}
use prism_auto_compounding_c.Protocol.Rewards.{process_rewards}
use prism_auto_compounding_c.Chain.{CosmosMsg, withdraw_delegator_reward, wasm_execute, to_rewards}
use prism_auto_compounding_c.Hub.Compound.{withdraw_all_rewards, execute_update_global}
use prism_auto_compounding_c.Hub.Contract.Settings.{SameSettings, execute-SameSettings}
use prism_auto_compounding_c.Hub.Contract.Registered.{SameContracts, execute-SameContracts}
use prism_auto_compounding_c.Hub.Store.{Store}
use prism_auto_compounding_c.Hub.Sample.{store, querier, env, from_user}
use prism_auto_compounding_c.Hub.Admin.{is_contract_paused, unwrap_assert_admin, execute_pause}
use prism_auto_compounding_c.Hub.Contract.{execute}
use prism_auto_compounding_c.Hub.Contract.Access.{execute-paused, execute-Allowed}

abbrev paused_store : Store
paused_store = record store { paused = true }

execute-paused_example :
    execute querier env (from_user "bob") paused_store withdraw_unbonded ≡ err paused
execute-paused_example =
    execute-paused querier env (from_user "bob") paused_store withdraw_unbonded refl refl

pause_run : execute querier env (from_user "owner") store pause ≡ ok ([], paused_store)
unfolding execute execute_pause unwrap_assert_admin
pause_run = refl

execute-Allowed_example : store.admin ≡ some "owner"
execute-Allowed_example =
    execute-Allowed querier env (from_user "owner") store paused_store pause [] pause_run

abbrev indexed_store : Store
indexed_store = record store { state = record (store.state) { last_index_modification = 130 } }

abbrev index_messages : List CosmosMsg
index_messages =
    withdraw_delegator_reward "val1"
    ∷ withdraw_delegator_reward "val2"
    ∷ wasm_execute "rewards" (to_rewards process_rewards) []
    ∷ []

index_run :
    execute querier env (from_user "bob") store update_global_index
    ≡ ok (index_messages, indexed_store)
unfolding execute is_contract_paused execute_update_global withdraw_all_rewards
index_run = refl

execute-SameSettings_example : SameSettings store indexed_store
execute-SameSettings_example =
    execute-SameSettings querier env (from_user "bob") store indexed_store update_global_index
      index_messages refl index_run

execute-SameContracts_example : SameContracts store paused_store
execute-SameContracts_example =
    execute-SameContracts querier env (from_user "owner") store paused_store pause [] refl pause_run
