-- ===== src/Hub/Unbond/ReturnTests.antt =====
-- Alice's request in a hub that was not slashed.
use prism_auto_compounding_c.Prelude.{◌+◌, ◌≡◌, refl, List, arith}
use prism_auto_compounding_c.Outcome.{ok}
use prism_auto_compounding_c.Platform.Reference.{reference}
use prism_auto_compounding_c.Chain.{CosmosMsg}
use prism_auto_compounding_c.Hub.Store.{Store}
use prism_auto_compounding_c.Hub.Sample.{querier, delegations}
use prism_auto_compounding_c.Hub.Slashing.{query_total_issued}
use prism_auto_compounding_c.Hub.Unbond.{execute_unbond}
use prism_auto_compounding_c.Hub.Unbond.Asked.{asked}
use prism_auto_compounding_c.Hub.Unbond.Returns.{Healthy, execute_unbond_returns}
use prism_auto_compounding_c.Hub.Invariant.Scenario.{token_store, token-Reach, later}

supply_asked : query_total_issued querier token_store ≡ ok 990
unfolding query_total_issued
supply_asked = refl

token_store-Healthy : Healthy querier later token_store 990 delegations
token_store-Healthy = record {
  delegations = refl;
  issued = supply_asked;
  held = omega arith;
  held_fits = omega arith;
  bonded = omega arith;
  priced = omega arith;
  claims_fit = omega arith;
  rate_fits = omega arith;
  height_fits = omega arith;
  id_fits = omega arith;
  since = omega arith;
}

execute_unbond_returns_example :
    (ms : List CosmosMsg) × (s' : Store) × (execute_unbond querier later 90 "alice" token_store
      ≡ ok (ms, s'))
    × (asked s' "alice" 1 ≡ asked token_store "alice" 1 + 90)
execute_unbond_returns_example =
    execute_unbond_returns querier later "alice" 90 990 token_store delegations token-Reach
      token_store-Healthy (omega arith) (omega arith) (omega arith)
