-- ===== src/Hub/Bond/ReturnTests.antt =====
-- Bob's payment in a hub that was not slashed.
use prism_auto_compounding_c.Prelude.{String, ◌+◌, ◌≡◌, refl, true, [], ◌∷◌, arith}
use prism_auto_compounding_c.Outcome.{ok}
use prism_auto_compounding_c.Platform.Reference.{reference}
use prism_auto_compounding_c.Chain.{MessageInfo, delegate, wasm_execute, token_mint}
use prism_auto_compounding_c.Hub.Store.{Store, is_valid_validator}
use prism_auto_compounding_c.Hub.Sample.{querier, env, delegations, uluna}
use prism_auto_compounding_c.Hub.Slashing.{query_total_issued}
use prism_auto_compounding_c.Hub.Bond.{execute_bond}
use prism_auto_compounding_c.Hub.Bond.Returns.{Accepts, execute_bond_returns}
use prism_auto_compounding_c.Hub.Invariant.Scenario.{token_store}

abbrev open_store : Store
open_store = record token_store { validators = "val1" ∷ [] }

abbrev bob : MessageInfo
bob = record { sender = "bob"; funds = uluna 100 ∷ [] }

supply_asked : query_total_issued querier open_store ≡ ok 990
unfolding query_total_issued
supply_asked = refl

listed : is_valid_validator open_store "val1" ≡ true
unfolding is_valid_validator
listed = refl

open_store-Accepts : Accepts querier env open_store 100 990 delegations
open_store-Accepts = record {
  delegations = refl;
  issued = supply_asked;
  held = omega arith;
  held_fits = omega arith;
  priced = omega arith;
  rate_low = omega arith;
  rate_high = omega arith;
  worth_fits = omega arith;
  bond_fits = omega arith;
  claims_fit = omega arith;
  rate_fits = omega arith;
}

execute_bond_returns_example :
    (token : String) × (s' : Store) × (execute_bond querier env bob "val1" open_store
      ≡ ok (delegate "val1" (uluna 100) ∷ wasm_execute token (token_mint "bob" 100) [] ∷ [], s'))
    × (s'.state.total_bond_amount ≡ 1000 + 100)
execute_bond_returns_example =
    execute_bond_returns querier env bob "val1" 990 (uluna 100) open_store delegations listed refl
      refl open_store-Accepts (omega arith) (omega arith)
