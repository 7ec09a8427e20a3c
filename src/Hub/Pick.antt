-- ===== src/Hub/Pick.antt =====
-- contracts/prism_hub/src/unbond.rs, `pick_validator`: which delegations an undelegation takes.
mod Tests
pub mod Total
pub mod Rounds
pub mod Undelegations
use prism_auto_compounding_c.Prelude.{
  ℕ, zero, suc, String, List, [], ◌∷◌, ◌++◌, ltb, ◌==◌, if◌then◌else◌, length, get_elem?, erase_idx,
}
use prism_auto_compounding_c.Outcome.{
  Outcome, ok, panic, expect, expect_ok, empty_range, no_delegation, out_of_fuel, ◌>>=◌,
}
use prism_auto_compounding_c.Machine.{u64_add}
use prism_auto_compounding_c.Platform.{Platform}
use prism_auto_compounding_c.Chain.{Coin, Delegation, Querier, CosmosMsg, undelegate}
use prism_auto_compounding_c.Hub.Store.{Store}

-- `if undelegated_amount.u128() > 0`: no message for an empty delegation.
unfoldable pub undelegate_some : String → String → ℕ → List CosmosMsg
undelegate_some coin_denom validator amount =
    if ltb 0 amount
    then undelegate validator (record { denom = coin_denom; amount = amount }) ∷ []
    else []

module _ ⦃p : Platform⦄ where
  open p use {uint_checked_sub, gen_range}

  -- `while claimed.u128() > 0`. Each round takes one delegation out, and the draw from no
  -- delegation panics, so one round more than there are delegations is enough.
  unfoldable pub pick_rounds : String → ℕ → ℕ → ℕ → ℕ → List Delegation → Outcome (List CosmosMsg)
  pick_rounds coin_denom block_height zero iteration_index claimed delegations = panic out_of_fuel
  pick_rounds coin_denom block_height (suc fuel) iteration_index claimed delegations =
      let round = (do
        seed ← u64_add block_height iteration_index
        random_index ← gen_range seed (length delegations)
        delegation ← expect (get_elem? delegations random_index) empty_range
        let val = delegation.amount.amount
        let undelegated_amount = if ltb claimed val then claimed else val
        claimed' ← if ltb claimed val then ok 0 else uint_checked_sub claimed val
        next_index ← u64_add iteration_index 1
        messages ←
            pick_rounds coin_denom block_height fuel next_index claimed'
              (erase_idx delegations random_index)
        ok (undelegate_some coin_denom delegation.validator undelegated_amount ++ messages)) in
      if claimed == 0 then ok [] else round

  unfoldable pub pick_validator : Querier → Store → ℕ → String → ℕ → Outcome (List CosmosMsg)
  pick_validator q s claim delegator block_height = do
    all_delegations ← expect_ok (q.all_delegations delegator) no_delegation
    pick_rounds s.parameters.underlying_coin_denom block_height (suc (length all_delegations)) 0
        claim all_delegations
