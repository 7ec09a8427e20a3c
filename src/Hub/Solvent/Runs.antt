-- ===== src/Hub/Solvent/Runs.antt =====
-- Runs of the hub in which each withdrawal finds a balance that affords its release: the hub stays
-- solvent, and no withdrawal fails for want of coins.
use prism_auto_compounding_c.Prelude.{
  ℕ, String, ◌-◌, ◌≡◌, refl, inl, inr, List, [], ◌∷◌, arith, sum_by,
}
use prism_auto_compounding_c.Outcome.{Outcome, ok}
use prism_auto_compounding_c.Platform.{Platform}
use prism_auto_compounding_c.Chain.{Env, MessageInfo, Querier, CosmosMsg}
use prism_auto_compounding_c.Protocol.Hub.{
  InstantiateMsg, MigrateMsg, ExecuteMsg, withdraw_unbonded,
}
use prism_auto_compounding_c.Hub.Store.{Store}
use prism_auto_compounding_c.Hub.Admin.{LegacyConfig, migrate}
use prism_auto_compounding_c.Hub.Instantiate.{instantiate}
use prism_auto_compounding_c.Hub.Contract.{execute}
use prism_auto_compounding_c.Hub.Withdraw.{process_withdraw_rate}
use prism_auto_compounding_c.Hub.Invariant.Frames.{migrate-Untouched}
use prism_auto_compounding_c.Hub.Invariant.Cases.{execute_cases}
use prism_auto_compounding_c.Hub.Invariant.Reach.{Reach, start, step, migration, Reach-IsValid}
use prism_auto_compounding_c.Hub.Solvent.{owed, IsSolvent}
use prism_auto_compounding_c.Hub.Solvent.Listed.{Reach-IsListed}
use prism_auto_compounding_c.Hub.Solvent.Release.{Affords}
use prism_auto_compounding_c.Hub.Solvent.Steps.{
  Untouched-IsSolvent, execute_unbond-IsSolvent, execute_withdraw_unbonded-IsSolvent,
}

module _ ⦃p : Platform⦄ where
  -- A withdrawal comes at a balance that affords the release it makes.
  abbrev pub IsAfforded : Querier → Env → Store → ExecuteMsg → Type 0
  IsAfforded q env s msg =
      (balance : ℕ) (s1 : Store)
      → msg ≡ withdraw_unbonded
      → q.balance env.contract s.parameters.underlying_coin_denom ≡ ok balance
      → process_withdraw_rate (env.time - s.parameters.unbonding_period) balance s ≡ ok s1
      → Affords balance s s1

  -- A history of a hub in which each withdrawal is afforded.
  pub data AffordedRun : Store → Type 0 where
    set_up :
        (env : Env) (info : MessageInfo) (msg : InstantiateMsg) (s : Store) (ms : List CosmosMsg)
        → instantiate env info msg ≡ ok (ms, s)
        → AffordedRun s
    message :
        (q : Querier) (env : Env) (info : MessageInfo) (msg : ExecuteMsg) (s s' : Store)
        (ms : List CosmosMsg)
        → AffordedRun s
        → execute q env info s msg ≡ ok (ms, s')
        → IsAfforded q env s msg
        → AffordedRun s'
    migrated :
        (legacy : Outcome LegacyConfig) (msg : MigrateMsg) (s s' : Store) (ms : List CosmosMsg)
        → AffordedRun s
        → migrate legacy msg s ≡ ok (ms, s')
        → AffordedRun s'

  pub AffordedRun-Reach : (s : Store) → AffordedRun s → Reach s
  AffordedRun-Reach _ (set_up env info msg s ms e) = start env info msg s ms e
  AffordedRun-Reach _ (message q env info msg s s' ms r e a) =
      step q env info msg s s' ms (AffordedRun-Reach s r) e
  AffordedRun-Reach _ (migrated legacy msg s s' ms r e) =
      migration legacy msg s s' ms (AffordedRun-Reach s r) e

  instantiate-IsSolvent :
      (env : Env) (info : MessageInfo) (msg : InstantiateMsg) (s : Store) (ms : List CosmosMsg)
      → instantiate env info msg ≡ ok (ms, s)
      → IsSolvent s
  unfolding instantiate
  instantiate-IsSolvent env info msg s ms e =
      let histories : s.histories ≡ [] = ground arith in
      let last : s.state.last_processed_batch ≡ 0 = ground arith in
      let unbonded : s.state.actual_unbonded_amount ≡ 0 = ground arith in
      record {
        claims = λ us d. let none_owed = nothing_owed s us histories last in omega arith;
        settled = unbonded;
      }
    where
      nothing_owed :
          (s : Store) (us : List String)
          → s.histories ≡ []
          → s.state.last_processed_batch ≡ 0
          → sum_by (λ u. owed s u) us ≡ 0
      nothing_owed s [] histories last = refl
      nothing_owed s (u ∷ us) histories last =
          let ih = nothing_owed s us histories last in
          let here : owed s u ≡ 0 = rw (last, histories) refl in omega arith

  execute-IsSolvent :
      (q : Querier) (env : Env) (info : MessageInfo) (s s' : Store) (msg : ExecuteMsg)
      (ms : List CosmosMsg)
      → execute q env info s msg ≡ ok (ms, s')
      → IsAfforded q env s msg
      → Reach s
      → IsSolvent s
      → IsSolvent s'
  execute-IsSolvent q env info s s' msg ms e a r v = elim (execute_cases q env info s s' msg ms e) [
    | inl untouched ↦ Untouched-IsSolvent untouched v
    | inr (inl (m, _, run)) ↦
        execute_unbond-IsSolvent q env m.amount m.sender s s' ms run (Reach-IsValid s r) v
    | inr (inr (withdrawal, run)) ↦
        execute_withdraw_unbonded-IsSolvent q env info s s' ms run
          (λ balance s1 asked processed. a balance s1 withdrawal asked processed) r
          (Reach-IsListed s' (step q env info msg s s' ms r e)) v
  ]

  -- In every run whose withdrawals are afforded, what any group of different users can withdraw
  -- for the released batches is at most the balance that the hub remembers.
  pub AffordedRun-IsSolvent : (s : Store) → AffordedRun s → IsSolvent s
  AffordedRun-IsSolvent _ (set_up env info msg s ms e) = instantiate-IsSolvent env info msg s ms e
  AffordedRun-IsSolvent _ (message q env info msg s s' ms r e a) =
      execute-IsSolvent q env info s s' msg ms e a (AffordedRun-Reach s r)
        (AffordedRun-IsSolvent s r)
  AffordedRun-IsSolvent _ (migrated legacy msg s s' ms r e) =
      Untouched-IsSolvent (migrate-Untouched legacy msg s s' ms e) (AffordedRun-IsSolvent s r)
