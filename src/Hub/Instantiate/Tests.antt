-- ===== src/Hub/Instantiate/Tests.antt =====
-- A hub with parameters that the check names as wrong, and the registration of its validator.
use prism_auto_compounding_c.Prelude.{◌≡◌, refl, some, List, [], ◌∷◌}
use prism_auto_compounding_c.Outcome.{ok}
use prism_auto_compounding_c.Platform.Reference.{reference}
use prism_auto_compounding_c.Chain.{MessageInfo, CosmosMsg}
use prism_auto_compounding_c.Protocol.Hub.{InstantiateMsg}
use prism_auto_compounding_c.Hub.Store.{Store}
use prism_auto_compounding_c.Hub.Sample.{env}
use prism_auto_compounding_c.Hub.Bond.{find_payment}
use prism_auto_compounding_c.Hub.Instantiate.{
  validate_params, first_messages, new_store, instantiate,
}
use prism_auto_compounding_c.Hub.Instantiate.Setup.{instantiate_accepts}

-- A protocol fee of 200 percent and a threshold of nothing.
abbrev wrong : InstantiateMsg
wrong = record {
  epoch_period = 2000000;
  underlying_coin_denom = "uatom";
  unbonding_period = 2000000;
  peg_recovery_fee = 0;
  er_threshold = 0;
  protocol_fee = 2000000000000000000;
  validator = "val1";
  rewards_contract = "rewards";
}

abbrev owner : MessageInfo
owner = record { sender = "owner"; funds = record { denom = "uatom"; amount = 5 } ∷ [] }

paid : find_payment "uatom" owner.funds ≡ some (record { denom = "uatom"; amount = 5 })
unfolding find_payment
paid = refl

instantiate_accepts_example :
    (ms : List CosmosMsg) × (s : Store) × (instantiate env owner wrong ≡ ok (ms, s))
    × (s.parameters ≡ record {
      epoch_period = 2000000;
      underlying_coin_denom = "uatom";
      unbonding_period = 2000000;
      peg_recovery_fee = 0;
      er_threshold = 0;
      protocol_fee = 2000000000000000000;
    })
    × (s.state.total_bond_amount ≡ 5)
instantiate_accepts_example =
    instantiate_accepts env owner wrong (record { denom = "uatom"; amount = 5 }) "owner" "owner"
      "rewards" paid refl refl refl

abbrev wrong_store : Store
wrong_store = new_store env wrong "owner" "rewards" 5

instantiate_run :
    instantiate env owner wrong
    ≡ ok (first_messages env wrong (record { denom = "uatom"; amount = 5 }), wrong_store)
unfolding instantiate find_payment validate_params
instantiate_run = refl
