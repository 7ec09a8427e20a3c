-- ===== src/Hub/Invariant/Frames.antt =====
-- The messages that leave the batches, their histories and the users' lists alone: all but an
-- unbond request and a withdrawal (contracts/prism_hub/src/contract.rs, `execute`).
use prism_auto_compounding_c.Prelude.{
  ℕ, String, ◌≡◌, refl, inl, inr, Bool, Option, arith, Bool-cases, List, ap, ◌∙◌,
}
use prism_auto_compounding_c.Outcome.{ok, Outcome}
use prism_auto_compounding_c.Platform.{Platform}
use prism_auto_compounding_c.Chain.{Env, MessageInfo, Querier, CosmosMsg}
use prism_auto_compounding_c.Hub.Store.{
  Store, contains, store_white_validators, remove_white_validators,
}
use prism_auto_compounding_c.Hub.Slashing.Laws.{SameButBond, slashing_frame}
use prism_auto_compounding_c.Hub.Bond.{execute_bond}
use prism_auto_compounding_c.Hub.Bond.Effect.{execute_bond_lem}
use prism_auto_compounding_c.Hub.Compound.{execute_update_global, execute_update_exchange_rate}
use prism_auto_compounding_c.Hub.Compound.Effect.{execute_update_exchange_rate_lem}
use prism_auto_compounding_c.Hub.Validators.{
  execute_register_validator, execute_deregister_validator,
}
use prism_auto_compounding_c.Hub.Admin.{
  execute_pause, execute_update_params, execute_update_config, execute_update_admin, LegacyConfig,
  migrate_config, migrate,
}
use prism_auto_compounding_c.Protocol.Hub.{MigrateMsg}

-- The batches and all claims on them are as before.
pub record Untouched (s s' : Store) : Type 0 where
  pub histories : s'.histories ≡ s.histories
  pub batch : s'.current_batch ≡ s.current_batch
  pub lists : s'.wait_lists ≡ s.wait_lists
  pub last : s'.state.last_processed_batch ≡ s.state.last_processed_batch
  pub remembered : s'.state.prev_hub_balance ≡ s.state.prev_hub_balance
  pub unbonded : s'.state.actual_unbonded_amount ≡ s.state.actual_unbonded_amount

Untouched-trans : {s t u : Store} → Untouched s t → Untouched t u → Untouched s u
Untouched-trans a b = record {
  histories = b.histories ∙ a.histories;
  batch = b.batch ∙ a.batch;
  lists = b.lists ∙ a.lists;
  last = b.last ∙ a.last;
  remembered = b.remembered ∙ a.remembered;
  unbonded = b.unbonded ∙ a.unbonded;
}

pub SameButBond-Untouched : {s s' : Store} → SameButBond s s' → Untouched s s'
SameButBond-Untouched b = record {
  histories = ap (λ (t : Store). t.histories) b.only;
  batch = ap (λ (t : Store). t.current_batch) b.only;
  lists = ap (λ (t : Store). t.wait_lists) b.only;
  last = ap (λ (t : Store). t.state.last_processed_batch) b.only;
  remembered = ap (λ (t : Store). t.state.prev_hub_balance) b.only;
  unbonded = ap (λ (t : Store). t.state.actual_unbonded_amount) b.only;
}

same-Untouched : (s : Store) → Untouched s s
same-Untouched s = record {
  histories = refl;
  batch = refl;
  lists = refl;
  last = refl;
  remembered = refl;
  unbonded = refl;
}

store_white_validators-Untouched :
    (s : Store) (v : String) → Untouched s (store_white_validators s v)
unfolding store_white_validators
store_white_validators-Untouched s v = elim (Bool-cases (contains s.validators v)) [
  | inl there ↦ rw there (same-Untouched s)
  | inr new ↦ rw new (record {
    histories = refl;
    batch = refl;
    lists = refl;
    last = refl;
    remembered = refl;
    unbonded = refl;
  })
]

module _ ⦃p : Platform⦄ where
  open p use {
    uint_add, uint_checked_sub, uint_mul_decimal, decimal_from_ratio, decimal_add, addr_humanize,
    addr_canonicalize, gen_range,
  }

  pub execute_bond-Untouched :
      (q : Querier) (env : Env) (info : MessageInfo) (validator : String) (s s' : Store)
      (ms : List CosmosMsg)
      → execute_bond q env info validator s ≡ ok (ms, s')
      → Untouched s s'
  execute_bond-Untouched q env info validator s s' ms e =
      let (_, _, s1, checked, bonds) = execute_bond_lem q env info validator s s' ms e in
      Untouched-trans (SameButBond-Untouched (slashing_frame q env s s1 checked))
        (SameButBond-Untouched (bonds.only_bond))

  pub execute_update_global-Untouched :
      (q : Querier) (env : Env) (s s' : Store) (ms : List CosmosMsg)
      → execute_update_global q env s ≡ ok (ms, s')
      → Untouched s s'
  unfolding execute_update_global
  execute_update_global-Untouched q env s s' ms e = ground arith

  pub execute_update_params-Untouched :
      (sender : String) (a b c d f : Option ℕ) (s s' : Store) (ms : List CosmosMsg)
      → execute_update_params sender a b c d f s ≡ ok (ms, s')
      → Untouched s s'
  unfolding execute_update_params
  execute_update_params-Untouched sender a b c d f s s' ms e = ground arith

  pub execute_update_config-Untouched :
      (sender : String) (token collector : Option String) (s s' : Store) (ms : List CosmosMsg)
      → execute_update_config sender token collector s ≡ ok (ms, s')
      → Untouched s s'
  unfolding execute_update_config
  execute_update_config-Untouched sender token collector s s' ms e = ground arith

  pub execute_pause-Untouched :
      (sender : String) (b : Bool) (s s' : Store) (ms : List CosmosMsg)
      → execute_pause sender b s ≡ ok (ms, s')
      → Untouched s s'
  unfolding execute_pause
  execute_pause-Untouched sender b s s' ms e = ground arith

  pub execute_update_admin-Untouched :
      (sender admin : String) (s s' : Store) (ms : List CosmosMsg)
      → execute_update_admin sender admin s ≡ ok (ms, s')
      → Untouched s s'
  unfolding execute_update_admin
  execute_update_admin-Untouched sender admin s s' ms e = ground arith

  pub execute_register_validator-Untouched :
      (q : Querier) (env : Env) (info : MessageInfo) (validator : String) (s s' : Store)
      (ms : List CosmosMsg)
      → execute_register_validator q env info validator s ≡ ok (ms, s')
      → Untouched s s'
  unfolding execute_register_validator
  execute_register_validator-Untouched q env info validator s s' ms e =
      let stored : s' ≡ store_white_validators s validator = ground arith in
      rw stored (store_white_validators-Untouched s validator)

  pub execute_deregister_validator-Untouched :
      (q : Querier) (env : Env) (info : MessageInfo) (validator : String) (s s' : Store)
      (ms : List CosmosMsg)
      → execute_deregister_validator q env info validator s ≡ ok (ms, s')
      → Untouched s s'
  unfolding execute_deregister_validator remove_white_validators
  execute_deregister_validator-Untouched q env info validator s s' ms e = ground arith

  pub execute_update_exchange_rate-Untouched :
      (q : Querier) (env : Env) (info : MessageInfo) (s s' : Store) (ms : List CosmosMsg)
      → execute_update_exchange_rate q env info s ≡ ok (ms, s')
      → Untouched s s'
  execute_update_exchange_rate-Untouched q env info s s' ms e =
      let (raw, payment, set, human, found, c) =
        execute_update_exchange_rate_lem q env info s s' ms e in
      rw (c.only_bond) (record {
        histories = refl;
        batch = refl;
        lists = refl;
        last = refl;
        remembered = refl;
        unbonded = refl;
      })

  pub migrate-Untouched :
      (legacy : Outcome LegacyConfig) (msg : MigrateMsg) (s s' : Store) (ms : List CosmosMsg)
      → migrate legacy msg s ≡ ok (ms, s')
      → Untouched s s'
  unfolding migrate migrate_config
  migrate-Untouched legacy msg s s' ms e = ground arith
