-- ===== src/Hub/Contract/Registered.antt =====
-- The token contract and the rewards contract of the config, which are set once.
use prism_auto_compounding_c.Prelude.{
  String, ◌≡◌, inl, inr, true, none, some, Option, List, arith, Bool-cases,
}
use prism_auto_compounding_c.Outcome.{ok}
use prism_auto_compounding_c.Platform.{Platform}
use prism_auto_compounding_c.Chain.{Env, MessageInfo, Querier, CosmosMsg}
use prism_auto_compounding_c.Protocol.Hub.{
  ExecuteMsg, pause, unpause, update_config, update_admin, update_exchange_rate, register_validator,
  deregister_validator, update_params, bond, update_global_index, withdraw_unbonded, check_slashing,
  receive,
}
use prism_auto_compounding_c.Hub.Store.{Store}
use prism_auto_compounding_c.Hub.Admin.{
  set_token, set_collector, execute_pause, execute_update_params, execute_update_config,
  execute_update_admin,
}
use prism_auto_compounding_c.Hub.Contract.{execute}
use prism_auto_compounding_c.Hub.Contract.Settings.{sets, execute-SameSettings}
use prism_auto_compounding_c.Hub.Contract.Dispatch.{running}

-- What stays of the config once a token contract is registered.
pub record SameContracts (s s' : Store) : Type 0 where
  pub token : s'.config.token_contract ≡ s.config.token_contract
  pub registered : s'.config.token_contract_registered ≡ true
  pub rewards : s'.config.rewards_contract ≡ s.config.rewards_contract

module _ ⦃p : Platform⦄ where
  open p use {addr_canonicalize}

  same-SameContracts :
      (s s' : Store)
      → s.config.token_contract_registered ≡ true
      → s'.config ≡ s.config
      → SameContracts s s'
  same-SameContracts s s' set same = record {
    token = rw same;
    registered = rw same set;
    rewards = rw same;
  }

  update_config-SameContracts :
      (sender : String) (token collector : Option String) (s s' : Store) (ms : List CosmosMsg)
      → s.config.token_contract_registered ≡ true
      → execute_update_config sender token collector s ≡ ok (ms, s')
      → SameContracts s s'
  unfolding execute_update_config set_token set_collector
  update_config-SameContracts sender none none s s' ms set e = ground arith
  update_config-SameContracts sender none (some c) s s' ms set e = ground arith
  update_config-SameContracts sender (some t) collector s s' ms set e = absurd (ground arith)

  owner-SameContracts :
      (q : Querier) (env : Env) (info : MessageInfo) (s s' : Store) (msg : ExecuteMsg)
      (ms : List CosmosMsg)
      → sets msg ≡ true
      → s.config.token_contract_registered ≡ true
      → execute q env info s msg ≡ ok (ms, s')
      → SameContracts s s'
  unfolding execute execute_pause execute_update_params execute_update_admin
  owner-SameContracts q env info s s' pause ms owners set e =
      same-SameContracts s s' set (ground arith)
  owner-SameContracts q env info s s' unpause ms owners set e =
      same-SameContracts s s' set (ground arith)
  owner-SameContracts q env info s s' (update_params _ _ _ _ _) ms owners set e =
      same-SameContracts s s' set (ground arith)
  owner-SameContracts q env info s s' (update_admin _) ms owners set e =
      same-SameContracts s s' set (ground arith)
  owner-SameContracts q env info s s' (update_config token collector) ms owners set e =
      update_config-SameContracts info.sender token collector s s' ms set (running s _ e)
  owner-SameContracts q env info s s' (receive _) ms owners set e = cc
  owner-SameContracts q env info s s' (bond _) ms owners set e = cc
  owner-SameContracts q env info s s' update_global_index ms owners set e = cc
  owner-SameContracts q env info s s' update_exchange_rate ms owners set e = cc
  owner-SameContracts q env info s s' withdraw_unbonded ms owners set e = cc
  owner-SameContracts q env info s s' (register_validator _) ms owners set e = cc
  owner-SameContracts q env info s s' (deregister_validator _) ms owners set e = cc
  owner-SameContracts q env info s s' check_slashing ms owners set e = cc

  -- Once a token contract is registered, no message changes it, nor the rewards contract: not
  -- even the owner's.
  pub execute-SameContracts :
      (q : Querier) (env : Env) (info : MessageInfo) (s s' : Store) (msg : ExecuteMsg)
      (ms : List CosmosMsg)
      → s.config.token_contract_registered ≡ true
      → execute q env info s msg ≡ ok (ms, s')
      → SameContracts s s'
  execute-SameContracts q env info s s' msg ms set e = elim (Bool-cases (sets msg)) [
    | inr other ↦
        same-SameContracts s s' set ((execute-SameSettings q env info s s' msg ms other e).config)
    | inl owners ↦ owner-SameContracts q env info s s' msg ms owners set e
  ]
