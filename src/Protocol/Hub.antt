-- ===== src/Protocol/Hub.antt =====
-- packages/prism-protocol/src/hub.rs: the data types of the hub contract. A `Uint128` and a
-- `u64` are natural numbers, a `Decimal` its atomics, an address or a denomination a text.
use prism_auto_compounding_c.Prelude.{ℕ, String, Bool, Option, List}

-- `UnbondRequest`: batch ids with the amounts asked for.
abbrev pub UnbondRequest : Type 0
UnbondRequest = List (ℕ × ℕ)

pub record InstantiateMsg : Type 0 where
  pub epoch_period : ℕ
  pub underlying_coin_denom : String
  pub unbonding_period : ℕ
  pub peg_recovery_fee : ℕ
  pub er_threshold : ℕ
  pub validator : String
  pub protocol_fee : ℕ
  pub rewards_contract : String

pub record Parameters : Type 0 where
  pub epoch_period : ℕ
  pub underlying_coin_denom : String
  pub unbonding_period : ℕ
  pub peg_recovery_fee : ℕ
  pub er_threshold : ℕ
  pub protocol_fee : ℕ

pub record CurrentBatch : Type 0 where
  pub id : ℕ
  pub requested_with_fee : ℕ

pub record State : Type 0 where
  pub exchange_rate : ℕ
  pub second_exchange_rate : ℕ
  pub total_bond_amount : ℕ
  pub last_index_modification : ℕ
  pub prev_hub_balance : ℕ
  pub actual_unbonded_amount : ℕ
  pub principle_balance_before_exchange_update : ℕ
  pub last_unbonded_time : ℕ
  pub last_processed_batch : ℕ

pub record Config : Type 0 where
  pub token_contract_registered : Bool
  pub token_contract : Option String
  pub protocol_fee_collector : Option String
  pub rewards_contract : Option String

-- cw20's message to a contract that is sent tokens. `msg` is the encoded hook.
pub record Cw20ReceiveMsg : Type 0 where
  pub sender : String
  pub amount : ℕ
  pub msg : String

pub data ExecuteMsg : Type 0 where
  pause : ExecuteMsg
  unpause : ExecuteMsg
  update_config : Option String → Option String → ExecuteMsg
  update_admin : String → ExecuteMsg
  update_exchange_rate : ExecuteMsg
  register_validator : String → ExecuteMsg
  deregister_validator : String → ExecuteMsg
  update_params : Option ℕ → Option ℕ → Option ℕ → Option ℕ → Option ℕ → ExecuteMsg
  bond : String → ExecuteMsg
  update_global_index : ExecuteMsg
  withdraw_unbonded : ExecuteMsg
  check_slashing : ExecuteMsg
  receive : Cw20ReceiveMsg → ExecuteMsg

pub data QueryMsg : Type 0 where
  config state whitelisted_validators current_batch : QueryMsg
  withdrawable_unbonded : String → QueryMsg
  parameters : QueryMsg
  unbond_requests : String → QueryMsg
  all_history : Option ℕ → Option ℕ → QueryMsg
  admin : QueryMsg

pub data Cw20HookMsg : Type 0 where
  unbond : Cw20HookMsg

pub record UnbondHistory : Type 0 where
  pub batch_id : ℕ
  pub time : ℕ
  pub amount : ℕ
  pub applied_exchange_rate : ℕ
  pub withdraw_rate : ℕ
  pub released : Bool

pub record StateResponse : Type 0 where
  pub exchange_rate : ℕ
  pub total_bond_amount : ℕ
  pub last_index_modification : ℕ
  pub principle_balance_before_exchange_update : ℕ
  pub prev_hub_balance : ℕ
  pub actual_unbonded_amount : ℕ
  pub last_unbonded_time : ℕ
  pub last_processed_batch : ℕ

pub record ConfigResponse : Type 0 where
  pub token_contract : Option String
  pub protocol_fee_collector : Option String
  pub rewards_contract : Option String

pub record WhitelistedValidatorsResponse : Type 0 where
  pub validators : List String

pub record CurrentBatchResponse : Type 0 where
  pub id : ℕ
  pub requested_with_fee : ℕ

pub record WithdrawableUnbondedResponse : Type 0 where
  pub withdrawable : ℕ

pub record UnbondRequestsResponse : Type 0 where
  pub address : String
  pub requests : UnbondRequest

pub record AllHistoryResponse : Type 0 where
  pub history : List UnbondHistory

pub record MigrateMsg : Type 0 where
  pub rewards_contract : String
