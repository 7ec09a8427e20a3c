-- ===== src/Hub/Instantiate.antt =====
-- contracts/prism_hub/src/contract.rs, `instantiate`, and the check of its parameters
-- (utility.rs, `validate_params`).
pub mod Setup
mod Tests
use prism_auto_compounding_c.Prelude.{
  ℕ, String, not, false, none, some, List, [], ◌∷◌, ltb, if◌then◌else◌, str_eq,
}
use prism_auto_compounding_c.Outcome.{
  Outcome, ok, Error, ok_or, no_assets, epoch_too_long, threshold_below_one, fee_above_one,
  unbonding_too_long, denom_not_uluna, ◌>>=◌, ◌>>◌,
}
use prism_auto_compounding_c.Platform.{Platform, decimal_one}
use prism_auto_compounding_c.Chain.{
  Coin, Env, MessageInfo, CosmosMsg, delegate, set_withdraw_address, wasm_execute, to_hub,
}
use prism_auto_compounding_c.Protocol.Hub.{InstantiateMsg, State, Parameters, register_validator}
use prism_auto_compounding_c.Hub.Store.{Store}
use prism_auto_compounding_c.Hub.Bond.{find_payment}

abbrev pub mainnet_undelegation_time : ℕ
mainnet_undelegation_time = 1814400

abbrev pub coin_denom : String
coin_denom = "uluna"

-- The statement `StdError::generic_err(…);` builds an error and drops it.
abbrev discard : Error → Outcome (Unit {0})
discard e = ok tt

unfoldable pub validate_params : InstantiateMsg → Outcome (Unit {0})
validate_params msg = do
  if ltb mainnet_undelegation_time msg.epoch_period then discard epoch_too_long else ok tt
  if ltb msg.er_threshold decimal_one then discard threshold_below_one else ok tt
  if ltb decimal_one msg.protocol_fee then discard fee_above_one else ok tt
  if ltb mainnet_undelegation_time msg.unbonding_period then discard unbonding_too_long else ok tt
  if not (str_eq msg.underlying_coin_denom coin_denom) then discard denom_not_uluna else ok tt
  ok tt

abbrev first_state : ℕ → ℕ → State
first_state time payment = record {
  exchange_rate = decimal_one;
  second_exchange_rate = decimal_one;
  total_bond_amount = payment;
  last_index_modification = time;
  prev_hub_balance = 0;
  actual_unbonded_amount = 0;
  principle_balance_before_exchange_update = 0;
  last_unbonded_time = time;
  last_processed_batch = 0;
}

abbrev parameters_of : InstantiateMsg → Parameters
parameters_of msg = record {
  epoch_period = msg.epoch_period;
  underlying_coin_denom = msg.underlying_coin_denom;
  unbonding_period = msg.unbonding_period;
  peg_recovery_fee = msg.peg_recovery_fee;
  er_threshold = msg.er_threshold;
  protocol_fee = msg.protocol_fee;
}

abbrev first_messages : Env → InstantiateMsg → Coin → List CosmosMsg
first_messages env msg payment =
    wasm_execute env.contract (to_hub (register_validator msg.validator)) []
    ∷ delegate msg.validator payment
    ∷ set_withdraw_address msg.rewards_contract
    ∷ []

abbrev new_store : Env → InstantiateMsg → String → String → ℕ → Store
new_store env msg admin rewards_contract payment = record {
  admin = some admin;
  paused = false;
  config = record {
    token_contract_registered = false;
    token_contract = none;
    protocol_fee_collector = none;
    rewards_contract = some rewards_contract;
  };
  parameters = parameters_of msg;
  current_batch = record { id = 1; requested_with_fee = 0 };
  state = first_state env.time payment;
  wait_lists = λ _. [];
  validators = [];
  histories = [];
}

module _ ⦃p : Platform⦄ where
  open p use {addr_canonicalize, addr_validate}

  -- The store is empty before the call.
  unfoldable pub instantiate : Env → MessageInfo → InstantiateMsg → Outcome (List CosmosMsg × Store)
  instantiate env info msg = do
    addr_canonicalize info.sender >>= λ _. ok tt
    payment ← ok_or (find_payment msg.underlying_coin_denom info.funds) (no_assets coin_denom)
    admin ← addr_validate info.sender
    rewards_contract ← addr_canonicalize msg.rewards_contract
    validate_params msg
    ok (first_messages env msg payment, new_store env msg admin rewards_contract payment.amount)
