-- ===== src/Hub/Validators/Tests.antt =====
-- The owner adds a third validator, and removes the second, whose delegation is moved.
use prism_auto_compounding_c.Prelude.{◌≡◌, refl, List, [], ◌∷◌, arith}
use prism_auto_compounding_c.Outcome.{ok}
use prism_auto_compounding_c.Platform.Reference.{reference}
use prism_auto_compounding_c.Chain.{CosmosMsg, redelegate, wasm_execute, to_hub}
use prism_auto_compounding_c.Protocol.Hub.{
  update_global_index, register_validator, deregister_validator,
}
use prism_auto_compounding_c.Hub.Store.{
  Store, store_white_validators, remove_white_validators, read_validators,
}
use prism_auto_compounding_c.Hub.Sample.{store, querier, env, from_user, uluna}
use prism_auto_compounding_c.Hub.Admin.{is_contract_paused, unwrap_assert_admin}
use prism_auto_compounding_c.Hub.Validators.{
  move_delegation, execute_register_validator, execute_deregister_validator,
}
use prism_auto_compounding_c.Hub.Validators.Whitelist.{IsWhitelist}
use prism_auto_compounding_c.Hub.Validators.Kept.{execute-IsWhitelist}
use prism_auto_compounding_c.Hub.Contract.{execute}
use prism_auto_compounding_c.Hub.Invariant.Scenario.{closed_store}

abbrev no_messages : List CosmosMsg
no_messages = []

abbrev three_store : Store
three_store = record store { validators = "val3" ∷ "val1" ∷ "val2" ∷ [] }

register_run :
    execute_register_validator querier env (from_user "owner") "val3" store ≡ ok ([], three_store)
unfolding execute_register_validator store_white_validators
register_run = refl

abbrev one_store : Store
one_store = record store { validators = "val2" ∷ [] }

abbrev moved : List CosmosMsg
moved =
    redelegate "val1" "val2" (uluna 300) ∷ wasm_execute "hub" (to_hub update_global_index) [] ∷ []

deregister_run :
    execute_deregister_validator querier env (from_user "owner") "val1" store
    ≡ ok (moved, one_store)
unfolding execute_deregister_validator unwrap_assert_admin read_validators remove_white_validators
    move_delegation
deregister_run = refl

dispatched_run :
    execute querier env (from_user "owner") store (deregister_validator "val1")
    ≡ ok (moved, one_store)
unfolding execute is_contract_paused execute_deregister_validator unwrap_assert_admin
    read_validators remove_white_validators move_delegation
dispatched_run = refl

execute-IsWhitelist_example : IsWhitelist one_store
execute-IsWhitelist_example =
    execute-IsWhitelist querier env (from_user "owner") store one_store
      (deregister_validator "val1") moved dispatched_run ((refl, (refl, tt)), omega arith)

abbrev listed_store : Store
listed_store = record closed_store { validators = "val2" ∷ [] }

listed_run :
    execute querier env (from_user "owner") closed_store (register_validator "val2")
    ≡ ok ([], listed_store)
unfolding execute is_contract_paused execute_register_validator store_white_validators
listed_run = refl
