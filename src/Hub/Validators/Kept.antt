-- ===== src/Hub/Validators/Kept.antt =====
-- The whitelist over all messages (contracts/prism_hub/src/contract.rs, `execute`): only a
-- registration and a removal change it.
use prism_auto_compounding_c.Prelude.{
  ℕ, String, ◌≡◌, Bool, true, false, Option, List, [], arith, ap, ◌∙◌, ◌<◌, sym, subst, length,
}
use prism_auto_compounding_c.Outcome.{Outcome, ok}
use prism_auto_compounding_c.Platform.{Platform}
use prism_auto_compounding_c.Chain.{Env, MessageInfo, Querier, CosmosMsg}
use prism_auto_compounding_c.Protocol.Hub.{InstantiateMsg, MigrateMsg, ExecuteMsg}
use prism_auto_compounding_c.Hub.Store.{Store, remove_white_validators}
use prism_auto_compounding_c.Hub.Slashing.Laws.{SameButBond, slashing_frame}
use prism_auto_compounding_c.Hub.Bond.{execute_bond}
use prism_auto_compounding_c.Hub.Bond.Effect.{execute_bond_lem}
use prism_auto_compounding_c.Hub.Unbond.{execute_unbond}
use prism_auto_compounding_c.Hub.Unbond.Effect.{execute_unbond_lem}
use prism_auto_compounding_c.Hub.Withdraw.{execute_withdraw_unbonded}
use prism_auto_compounding_c.Hub.Withdraw.Process.{process_withdraw_rate_lem}
use prism_auto_compounding_c.Hub.Withdraw.Payout.{withdraw_once}
use prism_auto_compounding_c.Hub.Compound.{execute_update_global, execute_update_exchange_rate}
use prism_auto_compounding_c.Hub.Compound.Effect.{execute_update_exchange_rate_lem}
use prism_auto_compounding_c.Hub.Validators.{
  execute_register_validator, execute_deregister_validator,
}
use prism_auto_compounding_c.Hub.Validators.Whitelist.{
  Distinct, IsWhitelist, without-Distinct, register_validator_lem, deregister_validator_lem,
}
use prism_auto_compounding_c.Hub.Admin.{
  LegacyConfig, execute_pause, execute_update_params, execute_update_config, execute_update_admin,
  migrate_config, migrate,
}
use prism_auto_compounding_c.Hub.Instantiate.{instantiate}
use prism_auto_compounding_c.Hub.Contract.{execute}
use prism_auto_compounding_c.Hub.Contract.Dispatch.{
  Ran, ran_unbond, ran_bond, ran_withdraw, ran_compound, ran_global, ran_slashing, ran_register,
  ran_deregister, ran_params, ran_config, ran_admin, ran_pause, ran_unpause, execute-Ran,
}
use prism_auto_compounding_c.Hub.Invariant.Reach.{Reach, start, step, migration}

abbrev Kept : Store → Store → Type 0
Kept s s' = s'.validators ≡ s.validators

SameButBond-Kept : {s s' : Store} → SameButBond s s' → Kept s s'
SameButBond-Kept b = ap (λ (x : Store). x.validators) (b.only)

module _ ⦃p : Platform⦄ where
  execute_bond-Kept :
      (q : Querier) (env : Env) (info : MessageInfo) (v : String) (s s' : Store)
      (ms : List CosmosMsg)
      → execute_bond q env info v s ≡ ok (ms, s')
      → Kept s s'
  execute_bond-Kept q env info v s s' ms e =
      let (_, _, s1, checked, bonds) = execute_bond_lem q env info v s s' ms e in
      SameButBond-Kept (bonds.only_bond) ∙ SameButBond-Kept (slashing_frame q env s s1 checked)

  execute_unbond-Kept :
      (q : Querier) (env : Env) (amount : ℕ) (user : String) (s s' : Store) (ms : List CosmosMsg)
      → execute_unbond q env amount user s ≡ ok (ms, s')
      → Kept s s'
  execute_unbond-Kept q env amount user s s' ms e =
      let (s1, _, _, _, s2, checked, _, requests, saves) =
        execute_unbond_lem q env amount user s s' ms e in
      ap (λ (x : Store). x.validators) (saves.kept)
      ∙ ap (λ (x : Store). x.validators) (requests.only_lists)
      ∙ SameButBond-Kept (slashing_frame q env s s1 checked)

  execute_withdraw_unbonded-Kept :
      (q : Querier) (env : Env) (info : MessageInfo) (s s' : Store) (ms : List CosmosMsg)
      → execute_withdraw_unbonded q env info s ≡ ok (ms, s')
      → Kept s s'
  execute_withdraw_unbonded-Kept q env info s s' ms e =
      let (balance, s1, _, run, pays) = withdraw_once q env info s s' ms e in
      ap (λ (x : Store). x.validators) (pays.kept)
      ∙ ap (λ (x : Store). x.validators) (process_withdraw_rate_lem _ balance s s1 run).rest

  execute_update_exchange_rate-Kept :
      (q : Querier) (env : Env) (info : MessageInfo) (s s' : Store) (ms : List CosmosMsg)
      → execute_update_exchange_rate q env info s ≡ ok (ms, s')
      → Kept s s'
  execute_update_exchange_rate-Kept q env info s s' ms e =
      let (_, _, _, _, _, c) = execute_update_exchange_rate_lem q env info s s' ms e in
      ap (λ (x : Store). x.validators) (c.only_bond)

  execute_update_global-Kept :
      (q : Querier) (env : Env) (s s' : Store) (ms : List CosmosMsg)
      → execute_update_global q env s ≡ ok (ms, s')
      → Kept s s'
  unfolding execute_update_global
  execute_update_global-Kept q env s s' ms e = ground arith

  settings-Kept :
      (sender : String) (s s' : Store) (ms : List CosmosMsg)
      → ((on : Bool) → execute_pause sender on s ≡ ok (ms, s') → Kept s s')
        × ((a b c d f : Option ℕ)
            → execute_update_params sender a b c d f s ≡ ok (ms, s')
            → Kept s s')
        × ((token collector : Option String)
            → execute_update_config sender token collector s ≡ ok (ms, s')
            → Kept s s')
        × ((admin : String) → execute_update_admin sender admin s ≡ ok (ms, s') → Kept s s')
  unfolding execute_pause execute_update_params execute_update_config execute_update_admin
  settings-Kept sender s s' ms = (
    λ on e. ground arith,
    λ a b c d f e. ground arith,
    λ token collector e. ground arith,
    λ admin e. ground arith,
  )

  deregister-Distinct :
      (q : Querier) (env : Env) (info : MessageInfo) (v : String) (s s' : Store)
      (ms : List CosmosMsg)
      → execute_deregister_validator q env info v s ≡ ok (ms, s')
      → Distinct s.validators
      → Distinct s'.validators
  unfolding execute_deregister_validator remove_white_validators
  deregister-Distinct q env info v s s' ms e d =
      let same : s' ≡ remove_white_validators s v = ground arith in
      rw same (without-Distinct (s.validators) v d)

  Ran-keeps :
      (P : List String → Type 0) (q : Querier) (env : Env) (info : MessageInfo) (s s' : Store)
      {msg : ExecuteMsg} (ms : List CosmosMsg)
      → ((v : String)
          → execute_register_validator q env info v s ≡ ok (ms, s')
          → P s.validators
          → P s'.validators)
      → ((v : String)
          → execute_deregister_validator q env info v s ≡ ok (ms, s')
          → P s.validators
          → P s'.validators)
      → Ran q env info s s' ms msg
      → P s.validators
      → P s'.validators
  Ran-keeps P q env info s s' ms add take (ran_register v e) = add v e
  Ran-keeps P q env info s s' ms add take (ran_deregister v e) = take v e
  Ran-keeps P q env info s s' ms add take (ran_unbond m e) =
      subst P (sym (execute_unbond-Kept q env m.amount m.sender s s' ms e))
  Ran-keeps P q env info s s' ms add take (ran_withdraw e) =
      subst P (sym (execute_withdraw_unbonded-Kept q env info s s' ms e))
  Ran-keeps P q env info s s' ms add take (ran_bond v e) =
      subst P (sym (execute_bond-Kept q env info v s s' ms e))
  Ran-keeps P q env info s s' ms add take (ran_global e) =
      subst P (sym (execute_update_global-Kept q env s s' ms e))
  Ran-keeps P q env info s s' ms add take (ran_compound e) =
      subst P (sym (execute_update_exchange_rate-Kept q env info s s' ms e))
  Ran-keeps P q env info s s' ms add take (ran_slashing e _) =
      subst P (sym (SameButBond-Kept (slashing_frame q env s s' e)))
  Ran-keeps P q env info s s' ms add take (ran_params a b c d f e) =
      subst P (sym ((settings-Kept info.sender s s' ms).1 a b c d f e))
  Ran-keeps P q env info s s' ms add take (ran_config token collector e) =
      subst P (sym ((settings-Kept info.sender s s' ms).2 token collector e))
  Ran-keeps P q env info s s' ms add take (ran_admin admin e) =
      subst P (sym ((settings-Kept info.sender s s' ms).3 admin e))
  Ran-keeps P q env info s s' ms add take (ran_pause e) =
      subst P (sym ((settings-Kept info.sender s s' ms).0 true e))
  Ran-keeps P q env info s s' ms add take (ran_unpause e) =
      subst P (sym ((settings-Kept info.sender s s' ms).0 false e))

  -- A property of the whitelist that registrations and removals keep is kept by every message.
  keeps :
      (P : List String → Type 0) (q : Querier) (env : Env) (info : MessageInfo) (s s' : Store)
      (msg : ExecuteMsg) (ms : List CosmosMsg)
      → ((v : String)
          → execute_register_validator q env info v s ≡ ok (ms, s')
          → P s.validators
          → P s'.validators)
      → ((v : String)
          → execute_deregister_validator q env info v s ≡ ok (ms, s')
          → P s.validators
          → P s'.validators)
      → execute q env info s msg ≡ ok (ms, s')
      → P s.validators
      → P s'.validators
  keeps P q env info s s' msg ms add take e =
      Ran-keeps P q env info s s' ms add take (execute-Ran q env info s s' msg ms e)

  -- A whitelist that lists each validator once and is not empty stays one through every message
  -- that succeeds, whoever sends it.
  pub execute-IsWhitelist :
      (q : Querier) (env : Env) (info : MessageInfo) (s s' : Store) (msg : ExecuteMsg)
      (ms : List CosmosMsg)
      → execute q env info s msg ≡ ok (ms, s')
      → IsWhitelist s
      → IsWhitelist s'
  execute-IsWhitelist q env info s s' msg ms e =
      keeps (λ vs. Distinct vs × (0 < length vs)) q env info s s' msg ms
        (λ v run w. (register_validator_lem q env info v s s' ms (w.0) run).5)
        (λ v run w. (deregister_validator_lem q env info v s s' ms w run).1) e

  instantiate-Distinct :
      (env : Env) (info : MessageInfo) (msg : InstantiateMsg) (s : Store) (ms : List CosmosMsg)
      → instantiate env info msg ≡ ok (ms, s)
      → Distinct s.validators
  unfolding instantiate
  instantiate-Distinct env info msg s ms e =
      let empty : s.validators ≡ [] = ground arith in rw empty tt

  migrate-Kept :
      (legacy : Outcome LegacyConfig) (msg : MigrateMsg) (s s' : Store) (ms : List CosmosMsg)
      → migrate legacy msg s ≡ ok (ms, s')
      → Kept s s'
  unfolding migrate migrate_config
  migrate-Kept legacy msg s s' ms e = ground arith

  -- In every store that a hub can reach, the whitelist lists each validator once.
  pub Reach-Distinct : (s : Store) → Reach s → Distinct s.validators
  Reach-Distinct _ (start env info msg s ms e) = instantiate-Distinct env info msg s ms e
  Reach-Distinct _ (step q env info msg s t ms r e) =
      keeps Distinct q env info s t msg ms
        (λ v run d. (register_validator_lem q env info v s t ms d run).5.0)
        (λ v run d. deregister-Distinct q env info v s t ms run d) e (Reach-Distinct s r)
  Reach-Distinct _ (migration legacy msg s t ms r e) =
      rw (migrate-Kept legacy msg s t ms e) (Reach-Distinct s r)
