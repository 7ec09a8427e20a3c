-- ===== src/Hub/Contract/Settings.antt =====
-- Which messages may change the owner, the pause switch, the config and the parameters.
use prism_auto_compounding_c.Prelude.{ℕ, String, ◌≡◌, refl, Bool, true, false, List, arith, ap, ◌∙◌}
use prism_auto_compounding_c.Outcome.{ok}
use prism_auto_compounding_c.Platform.{Platform}
use prism_auto_compounding_c.Chain.{Env, MessageInfo, Querier, CosmosMsg}
use prism_auto_compounding_c.Protocol.Hub.{
  ExecuteMsg, pause, unpause, update_config, update_admin, update_params,
}
use prism_auto_compounding_c.Hub.Store.{Store, store_white_validators, remove_white_validators}
use prism_auto_compounding_c.Hub.Slashing.Laws.{SameButBond, slashing_frame}
use prism_auto_compounding_c.Hub.Bond.{execute_bond}
use prism_auto_compounding_c.Hub.Bond.Effect.{execute_bond_lem}
use prism_auto_compounding_c.Hub.Unbond.{execute_unbond}
use prism_auto_compounding_c.Hub.Unbond.Effect.{execute_unbond_lem}
use prism_auto_compounding_c.Hub.Withdraw.{execute_withdraw_unbonded}
use prism_auto_compounding_c.Hub.Withdraw.Process.{process_withdraw_rate_lem}
use prism_auto_compounding_c.Hub.Withdraw.Payout.{withdraw_once}
use prism_auto_compounding_c.Hub.Compound.{execute_update_global, execute_update_exchange_rate}
use prism_auto_compounding_c.Hub.Compound.Effect.{execute_update_exchange_rate_lem}
use prism_auto_compounding_c.Hub.Validators.{
  execute_register_validator, execute_deregister_validator,
}
use prism_auto_compounding_c.Hub.Contract.{execute}
use prism_auto_compounding_c.Hub.Contract.Dispatch.{
  Ran, ran_unbond, ran_bond, ran_withdraw, ran_compound, ran_global, ran_slashing, ran_register,
  ran_deregister, ran_params, ran_config, ran_admin, ran_pause, ran_unpause, execute-Ran,
}

-- The four settings are as before.
pub record SameSettings (s s' : Store) : Type 0 where
  pub admin : s'.admin ≡ s.admin
  pub paused : s'.paused ≡ s.paused
  pub config : s'.config ≡ s.config
  pub parameters : s'.parameters ≡ s.parameters

SameSettings-trans : {s t u : Store} → SameSettings s t → SameSettings t u → SameSettings s u
SameSettings-trans a b = record {
  admin = b.admin ∙ a.admin;
  paused = b.paused ∙ a.paused;
  config = b.config ∙ a.config;
  parameters = b.parameters ∙ a.parameters;
}

-- A store that is another one but for the fields that the handlers write.
rest-SameSettings :
    (s s' : Store)
    → s' ≡ record s {
      current_batch = s'.current_batch;
      state = s'.state;
      wait_lists = s'.wait_lists;
      validators = s'.validators;
      histories = s'.histories;
    }
    → SameSettings s s'
rest-SameSettings s s' e = record {
  admin = ap (λ (t : Store). t.admin) e;
  paused = ap (λ (t : Store). t.paused) e;
  config = ap (λ (t : Store). t.config) e;
  parameters = ap (λ (t : Store). t.parameters) e;
}

SameButBond-SameSettings : {s s' : Store} → SameButBond s s' → SameSettings s s'
SameButBond-SameSettings {s = s} {s' = s'} b = record {
  admin = ap (λ (t : Store). t.admin) b.only;
  paused = ap (λ (t : Store). t.paused) b.only;
  config = ap (λ (t : Store). t.config) b.only;
  parameters = ap (λ (t : Store). t.parameters) b.only;
}

-- The messages that only the owner may send and that set something.
abbrev pub sets : ExecuteMsg → Bool
sets pause = true
sets unpause = true
sets (update_params _ _ _ _ _) = true
sets (update_config _ _) = true
sets (update_admin _) = true
sets _ = false

module _ ⦃p : Platform⦄ where
  open p use {addr_canonicalize, addr_humanize, addr_validate}

  bond-SameSettings :
      (q : Querier) (env : Env) (info : MessageInfo) (v : String) (s s' : Store)
      (ms : List CosmosMsg)
      → execute_bond q env info v s ≡ ok (ms, s')
      → SameSettings s s'
  bond-SameSettings q env info v s s' ms e =
      let (_, _, s1, checked, bonds) = execute_bond_lem q env info v s s' ms e in
      SameSettings-trans (SameButBond-SameSettings (slashing_frame q env s s1 checked))
        (SameButBond-SameSettings (bonds.only_bond))

  unbond-SameSettings :
      (q : Querier) (env : Env) (amount : ℕ) (user : String) (s s' : Store) (ms : List CosmosMsg)
      → execute_unbond q env amount user s ≡ ok (ms, s')
      → SameSettings s s'
  unbond-SameSettings q env amount user s s' ms e =
      let (s1, supply, batch, st, s2, checked, issued, requests, saves) =
        execute_unbond_lem q env amount user s s' ms e in
      let joined : SameSettings s1 s2 = rw (requests.only_lists) (rest-SameSettings s1 _ refl) in
      let saved : SameSettings s2 s' = rw (saves.kept) (rest-SameSettings s2 _ refl) in
      SameSettings-trans (SameButBond-SameSettings (slashing_frame q env s s1 checked))
        (SameSettings-trans joined saved)

  withdraw-SameSettings :
      (q : Querier) (env : Env) (info : MessageInfo) (s s' : Store) (ms : List CosmosMsg)
      → execute_withdraw_unbonded q env info s ≡ ok (ms, s')
      → SameSettings s s'
  withdraw-SameSettings q env info s s' ms e =
      let (balance, s1, asked, processed, pays) = withdraw_once q env info s s' ms e in
      let released = process_withdraw_rate_lem _ balance s s1 processed in
      let first : SameSettings s s1 = rw (released.rest) (rest-SameSettings s _ refl) in
      let second : SameSettings s1 s' = rw (pays.kept) (rest-SameSettings s1 _ refl) in
      SameSettings-trans first second

  compound-SameSettings :
      (q : Querier) (env : Env) (info : MessageInfo) (s s' : Store) (ms : List CosmosMsg)
      → execute_update_exchange_rate q env info s ≡ ok (ms, s')
      → SameSettings s s'
  compound-SameSettings q env info s s' ms e =
      let (raw, payment, set, human, found, c) =
        execute_update_exchange_rate_lem q env info s s' ms e in
      rw (c.only_bond) (rest-SameSettings s _ refl)

  global-SameSettings :
      (q : Querier) (env : Env) (s s' : Store) (ms : List CosmosMsg)
      → execute_update_global q env s ≡ ok (ms, s')
      → SameSettings s s'
  unfolding execute_update_global
  global-SameSettings q env s s' ms e = ground arith

  register-SameSettings :
      (q : Querier) (env : Env) (info : MessageInfo) (v : String) (s s' : Store)
      (ms : List CosmosMsg)
      → execute_register_validator q env info v s ≡ ok (ms, s')
      → SameSettings s s'
  unfolding execute_register_validator store_white_validators
  register-SameSettings q env info v s s' ms e = ground arith

  deregister-SameSettings :
      (q : Querier) (env : Env) (info : MessageInfo) (v : String) (s s' : Store)
      (ms : List CosmosMsg)
      → execute_deregister_validator q env info v s ≡ ok (ms, s')
      → SameSettings s s'
  unfolding execute_deregister_validator remove_white_validators
  deregister-SameSettings q env info v s s' ms e = ground arith

  Ran-SameSettings :
      (q : Querier) (env : Env) (info : MessageInfo) (s s' : Store) {msg : ExecuteMsg}
      (ms : List CosmosMsg)
      → sets msg ≡ false
      → Ran q env info s s' ms msg
      → SameSettings s s'
  Ran-SameSettings q env info s s' ms other (ran_unbond m e) =
      unbond-SameSettings q env m.amount m.sender s s' ms e
  Ran-SameSettings q env info s s' ms other (ran_bond v e) =
      bond-SameSettings q env info v s s' ms e
  Ran-SameSettings q env info s s' ms other (ran_global e) = global-SameSettings q env s s' ms e
  Ran-SameSettings q env info s s' ms other (ran_compound e) =
      compound-SameSettings q env info s s' ms e
  Ran-SameSettings q env info s s' ms other (ran_withdraw e) =
      withdraw-SameSettings q env info s s' ms e
  Ran-SameSettings q env info s s' ms other (ran_register v e) =
      register-SameSettings q env info v s s' ms e
  Ran-SameSettings q env info s s' ms other (ran_deregister v e) =
      deregister-SameSettings q env info v s s' ms e
  Ran-SameSettings q env info s s' ms other (ran_slashing e _) =
      SameButBond-SameSettings (slashing_frame q env s s' e)
  Ran-SameSettings q env info s s' ms other (ran_params _ _ _ _ _ _) = cc
  Ran-SameSettings q env info s s' ms other (ran_config _ _ _) = cc
  Ran-SameSettings q env info s s' ms other (ran_admin _ _) = cc
  Ran-SameSettings q env info s s' ms other (ran_pause _) = cc
  Ran-SameSettings q env info s s' ms other (ran_unpause _) = cc

  -- No message but the owner's five that set something changes the owner, the pause switch, the
  -- config or the parameters.
  pub execute-SameSettings :
      (q : Querier) (env : Env) (info : MessageInfo) (s s' : Store) (msg : ExecuteMsg)
      (ms : List CosmosMsg)
      → sets msg ≡ false
      → execute q env info s msg ≡ ok (ms, s')
      → SameSettings s s'
  execute-SameSettings q env info s s' msg ms other e =
      Ran-SameSettings q env info s s' ms other (execute-Ran q env info s s' msg ms e)
