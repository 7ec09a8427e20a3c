-- ===== src/Hub/Pick/Tests.antt =====
-- The pick at two delegations.
use prism_auto_compounding_c.Prelude.{◌≡◌, refl, arith, List, [], ◌∷◌}
use prism_auto_compounding_c.Outcome.{ok, panic, empty_range}
use prism_auto_compounding_c.Platform.Reference.{reference}
use prism_auto_compounding_c.Chain.{CosmosMsg, undelegate}
use prism_auto_compounding_c.Hub.Sample.{store, querier, delegations, uluna}
use prism_auto_compounding_c.Hub.Pick.{pick_rounds, pick_validator, undelegate_some}
use prism_auto_compounding_c.Hub.Pick.Total.{Picks, pick_validator_exact, pick_validator_short}

pick_both :
    pick_validator querier store 500 "hub" 7
    ≡ ok (undelegate "val1" (uluna 300) ∷ undelegate "val2" (uluna 200) ∷ [])
unfolding pick_validator pick_rounds undelegate_some
pick_both = refl

pick_validator_exact_example :
    (ms : List CosmosMsg) × (pick_validator querier store 500 "hub" 7 ≡ ok ms)
    × Picks "uluna" 500 delegations ms
pick_validator_exact_example =
    pick_validator_exact querier store 500 7 "hub" delegations refl (omega arith) (omega arith)

pick_validator_short_example : pick_validator querier store 1001 "hub" 7 ≡ panic empty_range
pick_validator_short_example =
    pick_validator_short querier store 1001 7 "hub" delegations refl (omega arith) (omega arith)
