-- ===== src/Hub/Vault/Quiet.antt =====
-- The messages that move neither the bond nor the rate nor the open batch, and mint and burn
-- nothing (contracts/prism_hub/src/contract.rs, `execute`).
use prism_auto_compounding_c.Prelude.{
  ℕ, String, ◌≡◌, refl, inl, inr, Bool, Option, some, none, arith, Bool-cases, List, [], ◌∷◌, ◌++◌,
  map, All, All-append, ◌==◌, length,
}
use prism_auto_compounding_c.Outcome.{
  Outcome, ok, err, panic, Outcome-cases, expect, unwrapped, reject_if, last_validator, >>=-eq-ok,
}
use prism_auto_compounding_c.Platform.{Platform}
use prism_auto_compounding_c.Chain.{
  Coin, Env, MessageInfo, Delegation, Querier, CosmosMsg, IsMute, IsTokenless,
  withdraw_delegator_reward, wasm_execute, to_rewards,
}
use prism_auto_compounding_c.Protocol.Rewards.{process_rewards}
use prism_auto_compounding_c.Hub.Stakes.{delegated, undelegated, mute_flow}
use prism_auto_compounding_c.Hub.Store.{
  Store, contains, store_white_validators, remove_white_validators, read_validators,
}
use prism_auto_compounding_c.Hub.Compound.{withdraw_all_rewards, execute_update_global}
use prism_auto_compounding_c.Hub.Withdraw.{execute_withdraw_unbonded}
use prism_auto_compounding_c.Hub.Withdraw.Process.{process_withdraw_rate_lem}
use prism_auto_compounding_c.Hub.Withdraw.Payout.{withdraw_once}
use prism_auto_compounding_c.Hub.Validators.{
  move_delegation, execute_register_validator, execute_deregister_validator,
}
use prism_auto_compounding_c.Hub.Admin.{
  unwrap_assert_admin, execute_pause, execute_update_params, execute_update_config,
  execute_update_admin,
}

pub record Quiet (s s' : Store) (ms : List CosmosMsg) : Type 0 where
  pub bond : s'.state.total_bond_amount ≡ s.state.total_bond_amount
  pub rate : s'.state.exchange_rate ≡ s.state.exchange_rate
  pub batch : s'.current_batch ≡ s.current_batch
  pub mute : All IsMute ms

-- The bond, the rate and the open batch are as before, and nothing is minted, burnt, staked or
-- unstaked.
pub record Still (s s' : Store) (ms : List CosmosMsg) : Type 0 where
  pub bond : s'.state.total_bond_amount ≡ s.state.total_bond_amount
  pub rate : s'.state.exchange_rate ≡ s.state.exchange_rate
  pub batch : s'.current_batch ≡ s.current_batch
  pub tokenless : All IsTokenless ms
  pub staked : delegated ms ≡ 0
  pub unstaked : undelegated ms ≡ 0

pub Quiet-Still : {s s' : Store} {ms : List CosmosMsg} → Quiet s s' ms → Still s s' ms
Quiet-Still {ms = ms} silent =
    let (tokenless, staked, unstaked) = mute_flow ms (silent.mute) in
    record {
      bond = silent.bond;
      rate = silent.rate;
      batch = silent.batch;
      tokenless = tokenless;
      staked = staked;
      unstaked = unstaked;
    }

withdrawals-IsMute :
    (ds : List Delegation)
    → All IsMute (map (λ (d : Delegation). withdraw_delegator_reward d.validator) ds)
withdrawals-IsMute [] = tt
withdrawals-IsMute (d ∷ ds) = (tt, withdrawals-IsMute ds)

withdraw_all_rewards-IsMute :
    (q : Querier) (delegator : String) (ms : List CosmosMsg)
    → withdraw_all_rewards q delegator ≡ ok ms
    → All IsMute ms
unfolding withdraw_all_rewards
withdraw_all_rewards-IsMute q delegator ms e = elim (Outcome-cases (q.all_delegations delegator)) [
  | inl (ds, asked) ↦
      let same : ms ≡ map (λ (d : Delegation). withdraw_delegator_reward d.validator) ds =
        ground arith in
      rw same (withdrawals-IsMute ds)
  | inr other ↦ let same : ms ≡ [] = ground arith in rw same tt
]

store_white_validators-Quiet : (s : Store) (v : String) → Quiet s (store_white_validators s v) []
unfolding store_white_validators
store_white_validators-Quiet s v = elim (Bool-cases (contains s.validators v)) [
  | inl there ↦ rw there (record { bond = refl; rate = refl; batch = refl; mute = tt })
  | inr new ↦ rw new (record { bond = refl; rate = refl; batch = refl; mute = tt })
]

module _ ⦃p : Platform⦄ where
  open p use {uint_checked_sub, addr_humanize, addr_canonicalize, gen_range}

  pub execute_update_global-Quiet :
      (q : Querier) (env : Env) (s s' : Store) (ms : List CosmosMsg)
      → execute_update_global q env s ≡ ok (ms, s')
      → Quiet s s' ms
  unfolding execute_update_global
  execute_update_global-Quiet q env s s' ms e =
      let (raw, _, e1) = >>=-eq-ok (expect s.config.rewards_contract unwrapped) _ e in
      let (rewards, _, e2) = >>=-eq-ok (addr_humanize raw) _ e1 in
      let (claims, asked, e3) = >>=-eq-ok (withdraw_all_rewards q env.contract) _ e2 in
      let last = wasm_execute rewards (to_rewards process_rewards) [] in
      let sent : ms ≡ claims ++ last ∷ [] = cc in
      let claimed = withdraw_all_rewards-IsMute q env.contract claims asked in
      record {
        bond = ground arith;
        rate = ground arith;
        batch = ground arith;
        mute = rw sent (All-append IsMute claims (last ∷ []) claimed (tt, tt));
      }

  pub execute_update_params-Quiet :
      (sender : String) (a b c d f : Option ℕ) (s s' : Store) (ms : List CosmosMsg)
      → execute_update_params sender a b c d f s ≡ ok (ms, s')
      → Quiet s s' ms
  unfolding execute_update_params
  execute_update_params-Quiet sender a b c d f s s' ms e = ground arith

  pub execute_update_config-Quiet :
      (sender : String) (token collector : Option String) (s s' : Store) (ms : List CosmosMsg)
      → execute_update_config sender token collector s ≡ ok (ms, s')
      → Quiet s s' ms
  unfolding execute_update_config
  execute_update_config-Quiet sender token collector s s' ms e = ground arith

  pub execute_pause-Quiet :
      (sender : String) (b : Bool) (s s' : Store) (ms : List CosmosMsg)
      → execute_pause sender b s ≡ ok (ms, s')
      → Quiet s s' ms
  unfolding execute_pause
  execute_pause-Quiet sender b s s' ms e = ground arith

  pub execute_update_admin-Quiet :
      (sender admin : String) (s s' : Store) (ms : List CosmosMsg)
      → execute_update_admin sender admin s ≡ ok (ms, s')
      → Quiet s s' ms
  unfolding execute_update_admin
  execute_update_admin-Quiet sender admin s s' ms e = ground arith

  pub execute_register_validator-Quiet :
      (q : Querier) (env : Env) (info : MessageInfo) (validator : String) (s s' : Store)
      (ms : List CosmosMsg)
      → execute_register_validator q env info validator s ≡ ok (ms, s')
      → Quiet s s' ms
  unfolding execute_register_validator
  execute_register_validator-Quiet q env info validator s s' ms e =
      let stored : s' ≡ store_white_validators s validator = ground arith in
      let silent : ms ≡ [] = ground arith in
      rw (stored, silent) (store_white_validators-Quiet s validator)

  move_delegation-IsMute :
      (env : Env) (validator : String) (vs : List String) (answer : Outcome (Option Coin))
      (ms : List CosmosMsg)
      → move_delegation env validator vs answer ≡ ok ms
      → All IsMute ms
  unfolding move_delegation
  move_delegation-IsMute env validator vs (ok none) ms e = ground arith
  move_delegation-IsMute env validator vs (ok (some c)) ms e = ground arith
  move_delegation-IsMute env validator vs (err _) ms e = ground arith
  move_delegation-IsMute env validator vs (panic _) ms e = ground arith

  pub execute_deregister_validator-Quiet :
      (q : Querier) (env : Env) (info : MessageInfo) (validator : String) (s s' : Store)
      (ms : List CosmosMsg)
      → execute_deregister_validator q env info validator s ≡ ok (ms, s')
      → Quiet s s' ms
  unfolding execute_deregister_validator remove_white_validators
  execute_deregister_validator-Quiet q env info validator s s' ms e =
      let (_, _, e1) = >>=-eq-ok (unwrap_assert_admin s info.sender) _ e in
      let (_, _, e2) =
        >>=-eq-ok (reject_if (length (read_validators s) == 1) last_validator) _ e1 in
      let s1 = remove_white_validators s validator in
      let answer = q.delegation env.contract validator in
      let (moves, moved, e3) =
        >>=-eq-ok (move_delegation env validator (read_validators s1) answer) _ e2 in
      let sent : ms ≡ moves = cc in
      let moving = move_delegation-IsMute env validator (read_validators s1) answer moves moved in
      record {
        bond = ground arith;
        rate = ground arith;
        batch = ground arith;
        mute = rw sent moving;
      }

  pub execute_withdraw_unbonded-Still :
      (q : Querier) (env : Env) (info : MessageInfo) (s s' : Store) (ms : List CosmosMsg)
      → execute_withdraw_unbonded q env info s ≡ ok (ms, s')
      → Still s s' ms
  execute_withdraw_unbonded-Still q env info s s' ms e =
      let (balance, s1, asked, run, pays) = withdraw_once q env info s s' ms e in
      let rest = (process_withdraw_rate_lem _ balance s s1 run).rest in
      rw (pays.kept, rest, pays.sent)
        (record {
          bond = refl;
          rate = refl;
          batch = refl;
          tokenless = (tt, tt);
          staked = refl;
          unstaked = refl;
        })
