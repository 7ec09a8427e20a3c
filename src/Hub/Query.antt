-- ===== src/Hub/Query.antt =====
-- contracts/prism_hub/src/contract.rs, the queries. An answer is its value before it is encoded.
mod Tests
use prism_auto_compounding_c.Prelude.{ℕ, String, Option, none, some}
use prism_auto_compounding_c.Outcome.{
  Outcome, ok, err, panic, expect_ok, unwrapped, invalid_address, ◌>>=◌,
}
use prism_auto_compounding_c.Machine.{u64_sub}
use prism_auto_compounding_c.Platform.{Platform}
use prism_auto_compounding_c.Chain.{Env}
use prism_auto_compounding_c.Protocol.Hub.{
  Parameters, StateResponse, ConfigResponse, WhitelistedValidatorsResponse, CurrentBatchResponse,
  WithdrawableUnbondedResponse, UnbondRequestsResponse, AllHistoryResponse, QueryMsg,
}
use prism_auto_compounding_c.Hub.Store.{
  Store, read_validators, query_get_finished_amount, get_unbond_requests, all_unbond_history,
}

unfoldable pub query_state : Store → StateResponse
query_state s = record {
  exchange_rate = s.state.exchange_rate;
  total_bond_amount = s.state.total_bond_amount;
  last_index_modification = s.state.last_index_modification;
  principle_balance_before_exchange_update = s.state.principle_balance_before_exchange_update;
  prev_hub_balance = s.state.prev_hub_balance;
  actual_unbonded_amount = s.state.actual_unbonded_amount;
  last_unbonded_time = s.state.last_unbonded_time;
  last_processed_batch = s.state.last_processed_batch;
}

unfoldable pub query_current_batch : Store → CurrentBatchResponse
query_current_batch s = record {
  id = s.current_batch.id;
  requested_with_fee = s.current_batch.requested_with_fee;
}

unfoldable pub query_params : Store → Parameters
query_params s = s.parameters

unfoldable pub query_unbond_requests_limitation : Store → Option ℕ → Option ℕ → AllHistoryResponse
query_unbond_requests_limitation s start limit = record {
  history = all_unbond_history s start limit;
}

-- The answers by their messages.
pub data Answer : Type 0 where
  config_answer : ConfigResponse → Answer
  state_answer : StateResponse → Answer
  current_batch_answer : CurrentBatchResponse → Answer
  validators_answer : WhitelistedValidatorsResponse → Answer
  withdrawable_answer : WithdrawableUnbondedResponse → Answer
  params_answer : Parameters → Answer
  requests_answer : UnbondRequestsResponse → Answer
  history_answer : AllHistoryResponse → Answer
  admin_answer : Option String → Answer

module _ ⦃p : Platform⦄ where
  open p use {addr_humanize, addr_validate}

  -- An address that is set is made human; `unwrap` panics on one that is not canonical.
  unfoldable pub humanize_option : Option String → Outcome (Option String)
  humanize_option none = ok none
  humanize_option (some a) = do human ← expect_ok (addr_humanize a) unwrapped; ok (some human)

  unfoldable pub query_config : Store → Outcome ConfigResponse
  query_config s = do
    token ← humanize_option s.config.token_contract
    fee_collector ← humanize_option s.config.protocol_fee_collector
    rewards_contract ← humanize_option s.config.rewards_contract
    ok (record {
      token_contract = token;
      protocol_fee_collector = fee_collector;
      rewards_contract = rewards_contract;
    })

  unfoldable pub query_white_validators : Store → WhitelistedValidatorsResponse
  query_white_validators s = record { validators = read_validators s }

  unfoldable pub query_withdrawable_unbonded :
      Store → String → Env → Outcome WithdrawableUnbondedResponse
  query_withdrawable_unbonded s address env = do
    historical_time ← u64_sub env.time s.parameters.unbonding_period
    all_requests ← query_get_finished_amount s address historical_time
    ok (record { withdrawable = all_requests })

  unfoldable pub query_unbond_requests : Store → String → Outcome UnbondRequestsResponse
  query_unbond_requests s address = elim (addr_validate address) [
    | ok _ ↦ ok (record { address = address; requests = get_unbond_requests s address })
    | err _ ↦ err invalid_address
    | panic x ↦ panic x
  ]

  unfoldable pub query : Store → Env → QueryMsg → Outcome Answer
  query s env QueryMsg.config = do c ← query_config s; ok (config_answer c)
  query s env QueryMsg.state = ok (state_answer (query_state s))
  query s env QueryMsg.current_batch = ok (current_batch_answer (query_current_batch s))
  query s env QueryMsg.whitelisted_validators = ok (validators_answer (query_white_validators s))
  query s env (QueryMsg.withdrawable_unbonded address) = do
    w ← query_withdrawable_unbonded s address env
    ok (withdrawable_answer w)
  query s env QueryMsg.parameters = ok (params_answer (query_params s))
  query s env (QueryMsg.unbond_requests address) = do
    r ← query_unbond_requests s address
    ok (requests_answer r)
  query s env (QueryMsg.all_history start_from limit) =
      ok (history_answer (query_unbond_requests_limitation s start_from limit))
  query s env QueryMsg.admin = ok (admin_answer s.admin)
