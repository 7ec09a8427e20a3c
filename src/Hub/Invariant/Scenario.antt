-- ===== src/Hub/Invariant/Scenario.antt =====
-- A hub that is set up by its owner, closes its first batch, and pays it out.
use prism_auto_compounding_c.Prelude.{◌≡◌, refl, true, false, none, some, List, [], ◌∷◌}
use prism_auto_compounding_c.Outcome.{ok}
use prism_auto_compounding_c.Platform.{decimal_one}
use prism_auto_compounding_c.Platform.Reference.{reference}
use prism_auto_compounding_c.Chain.{
  Env, MessageInfo, CosmosMsg, bank_send, delegate, undelegate, set_withdraw_address, wasm_execute,
  to_hub, token_burn,
}
use prism_auto_compounding_c.Protocol.Hub.{
  InstantiateMsg, Cw20ReceiveMsg, UnbondHistory, receive, register_validator, update_config,
  withdraw_unbonded,
}
use prism_auto_compounding_c.Hub.Store.{
  Store, set_wait_list, store_unbond_wait_list, store_unbond_history, read_unbond_history,
  released_batches, get_unbond_batches, add_withdrawable, withdrawable_from, get_finished_amount,
  erase_all, remove_unbond_wait_list,
}
use prism_auto_compounding_c.Hub.Sample.{querier, env, uluna, from_user}
use prism_auto_compounding_c.Hub.Rates.{update_exchange_rate}
use prism_auto_compounding_c.Hub.Slashing.{query_total_issued, sum_delegations, reconcile, slashing}
use prism_auto_compounding_c.Hub.Bond.{find_payment}
use prism_auto_compounding_c.Hub.Pick.{undelegate_some, pick_rounds, pick_validator}
use prism_auto_compounding_c.Hub.Unbond.{
  amount_less_fee, close_batch, close_if_due, request_unbond, save_unbond, execute_unbond,
}
use prism_auto_compounding_c.SignedInt.{from_subtraction}
use prism_auto_compounding_c.Hub.Withdraw.{
  due_history, count_unbonded, actual_unbonded, release_history, release_batches, release_counted,
  process_withdraw_rate, execute_withdraw_unbonded,
}
use prism_auto_compounding_c.Hub.Admin.{
  is_contract_paused, unwrap_assert_admin, set_token, set_collector, execute_update_config,
}
use prism_auto_compounding_c.Hub.Instantiate.{validate_params, instantiate}
use prism_auto_compounding_c.Hub.Contract.{receive_unbond, receive_cw20, execute}
use prism_auto_compounding_c.Hub.Invariant.Reach.{Reach, start, step}

abbrev pub setup : InstantiateMsg
setup = record {
  epoch_period = 30;
  underlying_coin_denom = "uluna";
  unbonding_period = 100;
  peg_recovery_fee = 0;
  er_threshold = decimal_one;
  validator = "val1";
  protocol_fee = 50000000000000000;
  rewards_contract = "rewards";
}

abbrev pub owner : MessageInfo
owner = record { sender = "owner"; funds = uluna 1000 ∷ [] }

abbrev pub setup_messages : List CosmosMsg
setup_messages =
    wasm_execute "hub" (to_hub (register_validator "val1")) []
    ∷ delegate "val1" (uluna 1000)
    ∷ set_withdraw_address "rewards"
    ∷ []

abbrev pub new_store : Store
new_store = record {
  admin = some "owner";
  paused = false;
  config = record {
    token_contract_registered = false;
    token_contract = none;
    protocol_fee_collector = none;
    rewards_contract = some "rewards";
  };
  parameters = record {
    epoch_period = 30;
    underlying_coin_denom = "uluna";
    unbonding_period = 100;
    peg_recovery_fee = 0;
    er_threshold = decimal_one;
    protocol_fee = 50000000000000000;
  };
  current_batch = record { id = 1; requested_with_fee = 0 };
  state = record {
    exchange_rate = decimal_one;
    second_exchange_rate = decimal_one;
    total_bond_amount = 1000;
    last_index_modification = 130;
    prev_hub_balance = 0;
    actual_unbonded_amount = 0;
    principle_balance_before_exchange_update = 0;
    last_unbonded_time = 130;
    last_processed_batch = 0;
  };
  wait_lists = λ _. [];
  validators = [];
  histories = [];
}

pub instantiate_run : instantiate env owner setup ≡ ok (setup_messages, new_store)
unfolding instantiate find_payment validate_params
instantiate_run = refl

abbrev pub token_store : Store
token_store = record new_store {
  config = record (new_store.config) {
    token_contract_registered = true;
    token_contract = some "token";
  };
}

pub update_config_run :
    execute querier env owner new_store (update_config (some "token") none) ≡ ok ([], token_store)
unfolding execute is_contract_paused execute_update_config unwrap_assert_admin set_token
    set_collector
update_config_run = refl

abbrev pub later : Env
later = record { time = 200; height = 8; contract = "hub" }

abbrev pub from_alice : Cw20ReceiveMsg
from_alice = record { sender = "alice"; amount = 90; msg = "unbond" }

abbrev pub closed_batch : UnbondHistory
closed_batch = record {
  batch_id = 1;
  time = 200;
  amount = 90;
  applied_exchange_rate = 1010101010101010101;
  withdraw_rate = 1010101010101010101;
  released = false;
}

abbrev alice_store : Store
alice_store = set_wait_list token_store "alice" ((1, 90) ∷ [])

abbrev pub closed_store : Store
closed_store = record alice_store {
  current_batch = record { id = 2; requested_with_fee = 0 };
  state = record (new_store.state) {
    exchange_rate = 1010101010101010101;
    total_bond_amount = 910;
    last_unbonded_time = 200;
  };
  histories = (1, closed_batch) ∷ [];
}

abbrev pub unbond_messages : List CosmosMsg
unbond_messages = undelegate "val1" (uluna 90) ∷ wasm_execute "token" (token_burn 90) [] ∷ []

pub unbond_run :
    execute querier later (from_user "token") token_store (receive from_alice)
    ≡ ok (unbond_messages, closed_store)
unfolding execute is_contract_paused receive_cw20 receive_unbond execute_unbond slashing
    sum_delegations query_total_issued reconcile request_unbond amount_less_fee
    store_unbond_wait_list update_exchange_rate save_unbond close_if_due close_batch pick_validator
    pick_rounds undelegate_some store_unbond_history
unbond_run = refl

pub token-Reach : Reach token_store
token-Reach =
    step querier env owner (update_config (some "token") none) new_store token_store []
      (start env owner setup new_store setup_messages instantiate_run) update_config_run

pub closed-Reach : Reach closed_store
closed-Reach =
    step querier later (from_user "token") (receive from_alice) token_store closed_store
      unbond_messages token-Reach unbond_run

-- The unbonding period is over.
abbrev pub evening : Env
evening = record { time = 300; height = 9; contract = "hub" }

abbrev pub full_store : Store
full_store = record closed_store {
  histories = (1, record closed_batch { withdraw_rate = decimal_one; released = true }) ∷ [];
  state = record (closed_store.state) { last_processed_batch = 1 };
}

abbrev pub paid_store : Store
paid_store = set_wait_list full_store "alice" []

abbrev pub paid_messages : List CosmosMsg
paid_messages = bank_send "alice" (uluna 90 ∷ []) ∷ []

pub withdraw_run :
    execute querier evening (from_user "alice") closed_store withdraw_unbonded
    ≡ ok (paid_messages, paid_store)
unfolding execute is_contract_paused execute_withdraw_unbonded process_withdraw_rate
    from_subtraction count_unbonded due_history read_unbond_history release_counted release_batches
    release_history actual_unbonded store_unbond_history get_finished_amount withdrawable_from
    add_withdrawable get_unbond_batches released_batches remove_unbond_wait_list erase_all
withdraw_run = refl

pub paid-Reach : Reach paid_store
paid-Reach =
    step querier evening (from_user "alice") withdraw_unbonded closed_store paid_store paid_messages
      closed-Reach withdraw_run
