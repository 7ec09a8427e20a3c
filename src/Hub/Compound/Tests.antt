-- ===== src/Hub/Compound/Tests.antt =====
-- Two hundred coins of rewards, five percent of which are the fee.
use prism_auto_compounding_c.Prelude.{String, ◌≡◌, refl, some, List, [], ◌∷◌}
use prism_auto_compounding_c.Outcome.{ok}
use prism_auto_compounding_c.Platform.Reference.{reference}
use prism_auto_compounding_c.Chain.{Coin, MessageInfo, CosmosMsg, delegate, bank_send}
use prism_auto_compounding_c.Hub.Store.{Store}
use prism_auto_compounding_c.Hub.Sample.{store, querier, env, uluna}
use prism_auto_compounding_c.Hub.Slashing.{query_total_issued}
use prism_auto_compounding_c.Hub.Bond.{find_payment}
use prism_auto_compounding_c.Hub.Compound.{
  protocol_fee_of, add_rewards, fee_message, delegate_message, send_rewards, compound_payment,
  execute_update_exchange_rate,
}
use prism_auto_compounding_c.Hub.Compound.Effect.{Compounds, execute_update_exchange_rate_lem}

abbrev claimed : MessageInfo
claimed = record { sender = "rewards"; funds = uluna 200 ∷ [] }

abbrev compounded_store : Store
compounded_store = record store {
  state = record (store.state) { total_bond_amount = 1190; exchange_rate = 1190000000000000000 };
}

abbrev compound_messages : List CosmosMsg
compound_messages = bank_send "collector" (uluna 10 ∷ []) ∷ delegate "val1" (uluna 190) ∷ []

compound_run :
    execute_update_exchange_rate querier env claimed store
    ≡ ok (compound_messages, compounded_store)
unfolding execute_update_exchange_rate find_payment compound_payment protocol_fee_of
    query_total_issued add_rewards send_rewards fee_message delegate_message
compound_run = refl

execute_update_exchange_rate_example :
    (raw : String) × (payment : Coin) × (store.config.rewards_contract ≡ some raw)
    × (reference.api.addr_humanize raw ≡ ok "rewards")
    × (find_payment "uluna" (uluna 200 ∷ []) ≡ some payment)
    × Compounds querier store compounded_store payment compound_messages
execute_update_exchange_rate_example =
    execute_update_exchange_rate_lem querier env claimed store compounded_store compound_messages
      compound_run
