-- ===== src/Hub/Bond/Tests.antt =====
-- Alice bonds one hundred coins at the rate one.
use prism_auto_compounding_c.Prelude.{◌≡◌, ◌≤◌, refl, true, List, [], ◌∷◌}
use prism_auto_compounding_c.Outcome.{ok}
use prism_auto_compounding_c.Platform.Reference.{reference}
use prism_auto_compounding_c.Chain.{MessageInfo, CosmosMsg, delegate, wasm_execute, token_mint}
use prism_auto_compounding_c.Hub.Store.{Store, is_valid_validator}
use prism_auto_compounding_c.Hub.Sample.{store, querier, env, uluna}
use prism_auto_compounding_c.Hub.Rates.{update_exchange_rate, decimal_division}
use prism_auto_compounding_c.Hub.Slashing.{query_total_issued, sum_delegations, reconcile, slashing}
use prism_auto_compounding_c.Hub.Bond.{
  find_payment, mint_with_fee, bond_payment, settle_bond, execute_bond,
}
use prism_auto_compounding_c.Hub.Bond.Effect.{Bonds, execute_bond_lem}

abbrev payer : MessageInfo
payer = record { sender = "alice"; funds = uluna 100 ∷ [] }

abbrev bonded_store : Store
bonded_store = record store { state = record (store.state) { total_bond_amount = 1100 } }

abbrev bond_messages : List CosmosMsg
bond_messages = delegate "val1" (uluna 100) ∷ wasm_execute "token" (token_mint "alice" 100) [] ∷ []

bond_run : execute_bond querier env payer "val1" store ≡ ok (bond_messages, bonded_store)
unfolding execute_bond is_valid_validator find_payment slashing sum_delegations query_total_issued
    reconcile settle_bond decimal_division mint_with_fee bond_payment update_exchange_rate
bond_run = refl

execute_bond_example :
    (is_valid_validator store "val1" ≡ true)
    × (1 ≤ 1)
    × (s1 : Store) × (slashing querier env store ≡ ok s1)
    × Bonds querier "alice" "val1" "uluna" (uluna 100 ∷ []) s1 bonded_store bond_messages
execute_bond_example =
    execute_bond_lem querier env payer "val1" store bonded_store bond_messages bond_run
