-- ===== src/Hub/Bond.antt =====
-- contracts/prism_hub/src/bond.rs: coins are delegated and bond tokens minted for them.
pub mod Effect
pub mod Returns
mod Tests
mod ReturnTests
use prism_auto_compounding_c.Prelude.{
  ℕ, suc, String, ◌&&◌, Option, none, some, List, [], ◌∷◌, ltb, if◌then◌else◌, str_eq, length,
}
use Prim.Native.Nat.{min}
use prism_auto_compounding_c.Outcome.{
  Outcome, ok, ensure, reject_if, ok_or, expect, unwrap_or, unsupported_validator,
  more_than_one_coin, no_assets, token_not_registered, ◌>>=◌, ◌>>◌,
}
use prism_auto_compounding_c.Platform.{Platform}
use prism_auto_compounding_c.Chain.{
  Coin, Env, MessageInfo, Querier, CosmosMsg, delegate, wasm_execute, token_mint,
}
use prism_auto_compounding_c.Hub.Store.{Store, is_valid_validator}
use prism_auto_compounding_c.Hub.Rates.{update_exchange_rate, decimal_division}
use prism_auto_compounding_c.Hub.Slashing.{query_total_issued, slashing}

-- `info.funds.iter().find(|x| x.denom == coin_denom && x.amount > Uint128::zero())`
unfoldable pub find_payment : String → List Coin → Option Coin
find_payment coin_denom [] = none
find_payment coin_denom (c ∷ cs) =
    if str_eq c.denom coin_denom && ltb 0 c.amount then some c else find_payment coin_denom cs

module _ ⦃p : Platform⦄ where
  open p use {uint_add, uint_checked_sub, uint_mul_decimal, addr_humanize}

  -- The amount to mint, less the peg recovery fee where the rate is below the threshold.
  unfoldable pub mint_with_fee : Store → ℕ → ℕ → ℕ → Outcome ℕ
  mint_with_fee s payment total_supply mint_amount =
      if ltb s.state.exchange_rate s.parameters.er_threshold
      then (do
        max_peg_fee ← uint_mul_decimal mint_amount s.parameters.peg_recovery_fee
        supply ← uint_add total_supply mint_amount
        claims ← uint_add supply s.current_batch.requested_with_fee
        bonded ← uint_add s.state.total_bond_amount payment
        required_peg_fee ← uint_checked_sub claims bonded
        uint_checked_sub mint_amount (min max_peg_fee required_peg_fee))
      else ok mint_amount

  -- The bond grows by the payment, and the rate is set for the supply after minting.
  unfoldable pub bond_payment : Store → ℕ → ℕ → ℕ → Outcome Store
  bond_payment s payment total_supply minted = do
    supply ← uint_add total_supply minted
    bonded ← uint_add s.state.total_bond_amount payment
    state ←
        update_exchange_rate (record (s.state) { total_bond_amount = bonded }) supply
          s.current_batch.requested_with_fee
    ok (record s { state = state })

  -- From the supply on: the mint, the new bond and the two messages.
  unfoldable pub settle_bond : String → String → Coin → ℕ → Store → Outcome (List CosmosMsg × Store)
  settle_bond sender validator payment total_supply s = do
    mint_amount ← decimal_division payment.amount s.state.exchange_rate
    minted ← mint_with_fee s payment.amount total_supply mint_amount
    s' ← bond_payment s payment.amount total_supply minted
    token ← expect s'.config.token_contract token_not_registered
    token_address ← addr_humanize token
    ok (
      delegate validator payment ∷ wasm_execute token_address (token_mint sender minted) [] ∷ [],
      s',
    )

  unfoldable pub execute_bond :
      Querier → Env → MessageInfo → String → Store → Outcome (List CosmosMsg × Store)
  execute_bond q env info validator s = do
    ensure (is_valid_validator s validator) unsupported_validator
    reject_if (ltb 1 (length info.funds)) more_than_one_coin
    payment ←
        ok_or (find_payment s.parameters.underlying_coin_denom info.funds)
          (no_assets s.parameters.underlying_coin_denom)
    s1 ← slashing q env s
    total_supply ← unwrap_or (query_total_issued q s1) 0
    settle_bond info.sender validator payment total_supply s1
