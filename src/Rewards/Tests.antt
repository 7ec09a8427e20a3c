-- ===== src/Rewards/Tests.antt =====
-- The hub has the rewards contract forward ninety coins.
use prism_auto_compounding_c.Prelude.{ℕ, ◌≡◌, refl, false, some, List, [], ◌∷◌}
use prism_auto_compounding_c.Outcome.{ok}
use prism_auto_compounding_c.Platform.Reference.{reference}
use prism_auto_compounding_c.Chain.{Env, CosmosMsg, wasm_execute, to_hub, bank_send, delegate}
use prism_auto_compounding_c.Protocol.Hub.{update_exchange_rate}
use prism_auto_compounding_c.Protocol.Rewards.{process_rewards}
use prism_auto_compounding_c.Hub.Sample.{store, env, querier, uluna, from_user}
use prism_auto_compounding_c.Hub.Store as Hub
use prism_auto_compounding_c.Hub.Admin
use prism_auto_compounding_c.Hub.Contract
use prism_auto_compounding_c.Hub.Slashing.{query_total_issued}
use prism_auto_compounding_c.Hub.Bond.{find_payment}
use prism_auto_compounding_c.Hub.Compound.{
  protocol_fee_of, add_rewards, fee_message, delegate_message, send_rewards, compound_payment,
  execute_update_exchange_rate,
}
use prism_auto_compounding_c.Hub.Compound.Effect.{Compounds}
use prism_auto_compounding_c.Rewards.Compounded.{forwarded-Compounds}
use prism_auto_compounding_c.Rewards.{Store, is_contract_paused, execute_process_rewards, execute}
use prism_auto_compounding_c.Rewards.Forward.{Executed, execute_lem}

abbrev rewards_store : Store
rewards_store = record {
  admin = some "owner";
  paused = false;
  config = record { hub_contract = "hub"; underlying_coin_denom = "uluna" };
}

abbrev rewards_env : Env
rewards_env = record { time = 130; height = 7; contract = "rewards" }

abbrev forwarded : List CosmosMsg
forwarded = wasm_execute "hub" (to_hub update_exchange_rate) (uluna 90 ∷ []) ∷ []

process_run :
    execute querier rewards_env (from_user "hub") rewards_store process_rewards
    ≡ ok (forwarded, rewards_store)
unfolding execute is_contract_paused execute_process_rewards
process_run = refl

execute_example :
    Executed querier rewards_env "hub" rewards_store process_rewards forwarded rewards_store
execute_example =
    execute_lem querier rewards_env (from_user "hub") rewards_store rewards_store process_rewards
      forwarded process_run

abbrev compounded_store : Hub.Store
compounded_store = record store {
  state = record (store.state) { total_bond_amount = 1086; exchange_rate = 1086000000000000000 };
}

abbrev compound_messages : List CosmosMsg
compound_messages = bank_send "collector" (uluna 4 ∷ []) ∷ delegate "val1" (uluna 86) ∷ []

compound_run :
    Contract.execute querier env
      (record { sender = "rewards"; funds = uluna 90 ∷ [] })
      store
      update_exchange_rate
    ≡ ok (compound_messages, compounded_store)
unfolding Contract.execute Admin.is_contract_paused execute_update_exchange_rate find_payment
    compound_payment protocol_fee_of query_total_issued add_rewards send_rewards fee_message
    delegate_message
compound_run = refl

forwarded-Compounds_example :
    (balance : ℕ) × (querier.balance "rewards" "uluna" ≡ ok balance)
    × Compounds querier store compounded_store
        (record { denom = "uluna"; amount = balance })
        compound_messages
forwarded-Compounds_example =
    forwarded-Compounds querier querier rewards_env env (from_user "hub") rewards_store
      rewards_store store compounded_store "hub" update_exchange_rate (uluna 90 ∷ [])
      compound_messages process_run compound_run
