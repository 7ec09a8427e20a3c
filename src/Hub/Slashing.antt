-- ===== src/Hub/Slashing.antt =====
-- contracts/prism_hub/src/contract.rs: the supply query and the check for slashing.
pub mod Laws
pub mod Losses
pub mod Left
pub mod Idle
mod Tests
use prism_auto_compounding_c.Prelude.{ℕ, String, List, [], ◌∷◌, ltb, if◌then◌else◌, str_eq}
use prism_auto_compounding_c.Outcome.{Outcome, ok, expect, token_not_registered, ◌>>=◌}
use prism_auto_compounding_c.Platform.{Platform}
use prism_auto_compounding_c.Chain.{Coin, Env, Delegation, Querier}
use prism_auto_compounding_c.Hub.Store.{Store}
use prism_auto_compounding_c.Hub.Rates.{update_exchange_rate}

module _ ⦃p : Platform⦄ where
  open p use {uint_add, addr_humanize}

  unfoldable pub query_total_issued : Querier → Store → Outcome ℕ
  query_total_issued q s = do
    token ← expect s.config.token_contract token_not_registered
    token_address ← addr_humanize token
    q.token_supply token_address

  -- `actual_total_bonded`, over the delegations in the coin's denomination
  unfoldable pub sum_delegations : String → List Delegation → ℕ → Outcome ℕ
  sum_delegations coin_denom [] total = ok total
  sum_delegations coin_denom (d ∷ ds) total = do
    total' ← if str_eq d.amount.denom coin_denom then uint_add total d.amount.amount else ok total
    sum_delegations coin_denom ds total'

  -- The stored bond falls to the delegated amount if that is smaller, and the rate follows.
  unfoldable pub reconcile : Store → ℕ → ℕ → Outcome Store
  reconcile s actual_total_bonded total_issued =
      if ltb actual_total_bonded s.state.total_bond_amount
      then (do
        state ←
            update_exchange_rate (record (s.state) { total_bond_amount = actual_total_bonded })
              total_issued s.current_batch.requested_with_fee
        ok (record s { state = state }))
      else ok s

  slashing_among : Querier → Store → List Delegation → Outcome Store
  slashing_among q s [] = ok s
  slashing_among q s (d ∷ ds) = do
    actual_total_bonded ← sum_delegations s.parameters.underlying_coin_denom (d ∷ ds) 0
    total_issued ← query_total_issued q s
    reconcile s actual_total_bonded total_issued

  unfoldable pub slashing : Querier → Env → Store → Outcome Store
  unfolding slashing_among
  slashing q env s = do delegations ← q.all_delegations env.contract; slashing_among q s delegations
