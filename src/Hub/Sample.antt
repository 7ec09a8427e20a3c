-- ===== src/Hub/Sample.antt =====
-- A hub with one closed batch, one open batch and two users, for the tests.
use prism_auto_compounding_c.Prelude.{
  ℕ, String, true, false, none, some, List, [], ◌∷◌, if◌then◌else◌, str_eq,
}
use prism_auto_compounding_c.Outcome.{ok}
use prism_auto_compounding_c.Platform.{decimal_one}
use prism_auto_compounding_c.Chain.{Coin, Env, MessageInfo, Delegation, Querier}
use prism_auto_compounding_c.Protocol.Hub.{State, Config, Parameters, UnbondHistory, unbond}
use prism_auto_compounding_c.Hub.Store.{Store}

abbrev pub uluna : ℕ → Coin
uluna n = record { denom = "uluna"; amount = n }

abbrev pub parameters : Parameters
parameters = record {
  epoch_period = 30;
  underlying_coin_denom = "uluna";
  unbonding_period = 100;
  peg_recovery_fee = 0;
  er_threshold = decimal_one;
  protocol_fee = 50000000000000000;
}

abbrev pub config : Config
config = record {
  token_contract_registered = true;
  token_contract = some "token";
  protocol_fee_collector = some "collector";
  rewards_contract = some "rewards";
}

abbrev pub state : State
state = record {
  exchange_rate = decimal_one;
  second_exchange_rate = decimal_one;
  total_bond_amount = 1000;
  last_index_modification = 0;
  prev_hub_balance = 0;
  actual_unbonded_amount = 0;
  principle_balance_before_exchange_update = 0;
  last_unbonded_time = 20;
  last_processed_batch = 0;
}

abbrev pub first_batch : UnbondHistory
first_batch = record {
  batch_id = 1;
  time = 20;
  amount = 100;
  applied_exchange_rate = decimal_one;
  withdraw_rate = decimal_one;
  released = false;
}

abbrev waiting : String → List (ℕ × ℕ)
waiting u = if str_eq u "bob" then (1, 60) ∷ (2, 10) ∷ [] else (1, 40) ∷ []

abbrev pub store : Store
store = record {
  admin = some "owner";
  paused = false;
  config = config;
  parameters = parameters;
  current_batch = record { id = 2; requested_with_fee = 10 };
  state = state;
  wait_lists = waiting;
  validators = "val1" ∷ "val2" ∷ [];
  histories = (1, first_batch) ∷ [];
}

abbrev pub delegation : String → ℕ → Delegation
delegation v n = record { delegator = "hub"; validator = v; amount = uluna n }

abbrev pub delegations : List Delegation
delegations = delegation "val1" 300 ∷ delegation "val2" 700 ∷ []

abbrev pub querier : Querier
querier = record {
  all_delegations = λ _. ok delegations;
  delegation = λ _ v. ok (if str_eq v "val1" then some (uluna 300) else none);
  all_validators = ok ("val1" ∷ "val2" ∷ "val3" ∷ []);
  balance = λ _ _. ok 90;
  token_supply = λ _. ok 990;
  decode_hook = λ _. ok unbond;
}

abbrev pub env : Env
env = record { time = 130; height = 7; contract = "hub" }

abbrev pub from_user : String → MessageInfo
from_user u = record { sender = u; funds = [] }
