-- ===== src/Hub/Unbond.antt =====
-- contracts/prism_hub/src/unbond.rs, `execute_unbond`: tokens are burnt, the request joins the
-- current batch, and once per epoch the batch is undelegated.
pub mod Asked
pub mod Closing
pub mod Worth
pub mod Effect
pub mod Returns
mod Tests
mod ReturnTests
use prism_auto_compounding_c.Prelude.{
  ℕ, String, false, List, [], ◌∷◌, ◌++◌, ltb, ◌==◌, if◌then◌else◌,
}
use Prim.Native.Nat.{min}
use prism_auto_compounding_c.Outcome.{
  Outcome, ok, reject_if, expect, expect_ok, unwrap_or, burn_too_small, out_of_supply,
  out_of_bonded, token_not_registered, ◌>>=◌, ◌>>◌,
}
use prism_auto_compounding_c.Machine.{u64_add, u64_sub}
use prism_auto_compounding_c.Platform.{Platform}
use prism_auto_compounding_c.Chain.{Env, Querier, CosmosMsg, wasm_execute, token_burn}
use prism_auto_compounding_c.Protocol.Hub.{State, CurrentBatch, UnbondHistory}
use prism_auto_compounding_c.Hub.Store.{Store, store_unbond_wait_list, store_unbond_history}
use prism_auto_compounding_c.Hub.Rates.{update_exchange_rate}
use prism_auto_compounding_c.Hub.Slashing.{query_total_issued, slashing}
use prism_auto_compounding_c.Hub.Pick.{pick_validator}

module _ ⦃p : Platform⦄ where
  open p use {uint_add, uint_checked_sub, uint_mul_decimal, addr_humanize}

  -- The tokens that count as unbonded, less the peg recovery fee below the threshold.
  unfoldable pub amount_less_fee : Store → CurrentBatch → ℕ → ℕ → Outcome ℕ
  amount_less_fee s batch total_supply amount =
      if ltb s.state.exchange_rate s.parameters.er_threshold
      then (do
        max_peg_fee ← uint_mul_decimal amount s.parameters.peg_recovery_fee
        claims ← uint_add total_supply batch.requested_with_fee
        required_peg_fee ← uint_checked_sub claims s.state.total_bond_amount
        uint_checked_sub amount (min max_peg_fee required_peg_fee))
      else ok amount

  -- The epoch has passed: the batch is undelegated and recorded, and the next one begins. The
  -- history is written to the store; the batch and the state are saved by the caller.
  unfoldable pub close_batch :
      Querier
      → Env
      → CurrentBatch
      → State
      → Store
      → Outcome (List CosmosMsg × CurrentBatch × State × Store)
  close_batch q env batch state s = do
    undelegation_amount ← uint_mul_decimal batch.requested_with_fee state.exchange_rate
    reject_if (undelegation_amount == 1) burn_too_small
    messages ← pick_validator q s undelegation_amount env.contract env.height
    bonded ← expect_ok (uint_checked_sub state.total_bond_amount undelegation_amount) out_of_bonded
    let history : UnbondHistory = record {
      batch_id = batch.id;
      time = env.time;
      amount = batch.requested_with_fee;
      applied_exchange_rate = state.exchange_rate;
      withdraw_rate = state.exchange_rate;
      released = false;
    }
    next_id ← u64_add batch.id 1
    ok (
      messages,
      record { id = next_id; requested_with_fee = 0 },
      record state { total_bond_amount = bonded; last_unbonded_time = env.time },
      store_unbond_history s batch.id history,
    )

  unfoldable pub close_if_due :
      Querier
      → Env
      → CurrentBatch
      → State
      → Store
      → Outcome (List CosmosMsg × CurrentBatch × State × Store)
  close_if_due q env batch state s = do
    passed_time ← u64_sub env.time state.last_unbonded_time
    if ltb s.parameters.epoch_period passed_time
        then close_batch q env batch state s
        else ok ([], batch, state, s)

  -- The request: the fee, the batch's new sum, the user's list and the new rate.
  unfoldable pub request_unbond :
      ℕ → String → CurrentBatch → ℕ → Store → Outcome (CurrentBatch × State × Store)
  request_unbond amount sender batch total_supply s = do
    amount_with_fee ← amount_less_fee s batch total_supply amount
    requested ← uint_add batch.requested_with_fee amount_with_fee
    s' ← store_unbond_wait_list s batch.id sender amount_with_fee
    left_supply ← expect_ok (uint_checked_sub total_supply amount) out_of_supply
    state ← update_exchange_rate s.state left_supply requested
    ok (record batch { requested_with_fee = requested }, state, s')

  -- The rest: the batch is closed if its epoch has passed, all is saved and the tokens are burnt.
  unfoldable pub save_unbond :
      Querier → Env → ℕ → CurrentBatch → State → Store → Outcome (List CosmosMsg × Store)
  save_unbond q env amount batch state s = do
    (messages, batch', state', s') ← close_if_due q env batch state s
    token ← expect s'.config.token_contract token_not_registered
    token_address ← addr_humanize token
    ok (
      messages ++ wasm_execute token_address (token_burn amount) [] ∷ [],
      record s' { current_batch = batch'; state = state' },
    )

  unfoldable pub execute_unbond :
      Querier → Env → ℕ → String → Store → Outcome (List CosmosMsg × Store)
  execute_unbond q env amount sender s = do
    s1 ← slashing q env s
    total_supply ← unwrap_or (query_total_issued q s1) 0
    (batch, state, s2) ← request_unbond amount sender s.current_batch total_supply s1
    save_unbond q env amount batch state s2
