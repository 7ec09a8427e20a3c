-- ===== src/Hub/Clock.antt =====
-- The hub under a clock that does not go back: the times of the closed batches, and the end of
-- their unbonding period (contracts/prism_hub/src/unbond.rs and state.rs).
pub mod Released
pub mod Queried
mod Tests
use prism_auto_compounding_c.Prelude.{
  ℕ, String, ◌+◌, ◌≤◌, ◌<◌, ◌≡◌, ◌≢◌, ◌⊎◌, refl, inl, inr, true, false, some, none, List, arith, ap,
  ◌∙◌, sym, Option-cases,
}
use native.Mathlib.Decide.{ℕ_discrete, dec_lt}
use prism_auto_compounding_c.Prelude.Assoc.{lookup, insert, lookup-insert_self, lookup-insert_ne}
use prism_auto_compounding_c.Outcome.{Outcome, ok}
use prism_auto_compounding_c.Platform.{Platform}
use prism_auto_compounding_c.Chain.{Env, MessageInfo, Querier, CosmosMsg}
use prism_auto_compounding_c.Protocol.Hub.{
  InstantiateMsg, MigrateMsg, ExecuteMsg, UnbondHistory, CurrentBatch, State,
}
use prism_auto_compounding_c.Hub.Store.{Store, store_unbond_history}
use prism_auto_compounding_c.Hub.Slashing.Laws.{slashing_frame}
use prism_auto_compounding_c.Hub.Unbond.{execute_unbond}
use prism_auto_compounding_c.Hub.Unbond.Closing.{closing_history}
use prism_auto_compounding_c.Hub.Unbond.Effect.{execute_unbond_lem}
use prism_auto_compounding_c.Hub.Withdraw.{process_withdraw_rate, execute_withdraw_unbonded}
use prism_auto_compounding_c.Hub.Withdraw.Loops.{due_history-lookup}
use prism_auto_compounding_c.Hub.Withdraw.Process.{process_withdraw_rate_lem}
use prism_auto_compounding_c.Hub.Withdraw.Payout.{withdraw_once}
use prism_auto_compounding_c.Hub.Admin.{LegacyConfig, migrate, migrate_config}
use prism_auto_compounding_c.Hub.Instantiate.{instantiate}
use prism_auto_compounding_c.Hub.Contract.{execute}
use prism_auto_compounding_c.Hub.Invariant.{IsValid}
use prism_auto_compounding_c.Hub.Invariant.Frames.{SameButBond-Untouched, migrate-Untouched}
use prism_auto_compounding_c.Hub.Invariant.Cases.{execute_cases}
use prism_auto_compounding_c.Hub.Invariant.Reach.{Reach, start, step, migration, Reach-IsValid}
use prism_auto_compounding_c.Hub.Histories.{Follows, execute-Follows}
use prism_auto_compounding_c.Hub.Histories.Recorded.{Recorded, execute-Recorded}

-- Batches are closed in the order of their ids, none in the future, and a released one has waited
-- for the unbonding period.
pub record IsTimely (s : Store) (now : ℕ) : Type 0 where
  pub past : (k : ℕ) (h : UnbondHistory) → lookup k s.histories ≡ some h → h.time ≤ now
  pub ordered :
      (j k : ℕ) (g h : UnbondHistory)
      → j ≤ k
      → lookup j s.histories ≡ some g
      → lookup k s.histories ≡ some h
      → g.time ≤ h.time
  pub waited :
      (k : ℕ) (h : UnbondHistory)
      → lookup k s.histories ≡ some h
      → h.released ≡ true
      → h.time + s.parameters.unbonding_period ≤ now

module _ ⦃p : Platform⦄ where
  Follows-time :
      (env : Env) (s : Store) (msg : ExecuteMsg) (h g : UnbondHistory)
      → Follows env s msg h g
      → g.time ≡ h.time
  Follows-time env s msg h g (inl same) = ap (λ (x : UnbondHistory). x.time) same
  Follows-time env s msg h g (inr (_, _, (_, released))) =
      ap (λ (x : UnbondHistory). x.time) released

  Follows-waited :
      (env : Env) (s : Store) (msg : ExecuteMsg) (h g : UnbondHistory) (now : ℕ)
      → Follows env s msg h g
      → g.released ≡ true
      → now ≤ env.time
      → (h.released ≡ true → h.time + s.parameters.unbonding_period ≤ now)
      → g.time + s.parameters.unbonding_period ≤ env.time
  Follows-waited env s msg h g now (inl same) done tick waited =
      let before = waited (sym (ap (λ (x : UnbondHistory). x.released) same) ∙ done) in
      rw same (omega arith)
  Follows-waited env s msg h g now (inr (_, old, (_, released))) done tick waited =
      let time = ap (λ (x : UnbondHistory). x.time) released in omega arith

  -- A message keeps the times in order, where the clock does not go back and the unbonding period
  -- does not grow.
  execute-IsTimely :
      (q : Querier) (env : Env) (info : MessageInfo) (msg : ExecuteMsg) (s s' : Store)
      (ms : List CosmosMsg) (now : ℕ)
      → execute q env info s msg ≡ ok (ms, s')
      → now ≤ env.time
      → s'.parameters.unbonding_period ≤ s.parameters.unbonding_period
      → IsValid s
      → IsTimely s now
      → IsTimely s' env.time
  execute-IsTimely q env info msg s s' ms now e tick period v t = record {
    past = λ k g found. elim (execute-Recorded q env info msg s s' ms k g e v found) [
      | inl (h, old, how) ↦
          let time = Follows-time env s msg h g how in let before = t.past k h old in omega arith
      | inr (_, time, _) ↦ omega arith
    ];
    ordered = λ j k g h le found found'.
        elim (execute-Recorded q env info msg s s' ms j g e v found) [
          | inr (here, time, _) ↦ elim (execute-Recorded q env info msg s s' ms k h e v found') [
            | inr (_, time', _) ↦ omega arith
            | inl (h0, old', _) ↦ let lt = v.fresh k h0 old' in absurd (omega arith)
          ]
          | inl (g0, old, how) ↦
              let time = Follows-time env s msg g0 g how in
              elim (execute-Recorded q env info msg s s' ms k h e v found') [
                | inr (_, time', _) ↦ let before = t.past j g0 old in omega arith
                | inl (h0, old', how') ↦
                    let time' = Follows-time env s msg h0 h how' in
                    let before = t.ordered j k g0 h0 le old old' in omega arith
              ]
        ];
    waited = λ k g found done. elim (execute-Recorded q env info msg s s' ms k g e v found) [
      | inr (_, _, pending) ↦ absurd (cc)
      | inl (h, old, how) ↦
          let over = Follows-waited env s msg h g now how done tick (t.waited k h old) in
          omega arith
    ];
  }

  -- A hub and the time of its last message. Each message comes no earlier than the one before,
  -- and the owner does not lengthen the unbonding period.
  pub data Clocked : Store → ℕ → Type 0 where
    opened :
        (env : Env) (info : MessageInfo) (msg : InstantiateMsg) (s : Store) (ms : List CosmosMsg)
        → instantiate env info msg ≡ ok (ms, s)
        → Clocked s env.time
    ticked :
        (q : Querier) (env : Env) (info : MessageInfo) (msg : ExecuteMsg) (s s' : Store)
        (ms : List CosmosMsg) (now : ℕ)
        → Clocked s now
        → now ≤ env.time
        → execute q env info s msg ≡ ok (ms, s')
        → s'.parameters.unbonding_period ≤ s.parameters.unbonding_period
        → Clocked s' env.time
    upgraded :
        (legacy : Outcome LegacyConfig) (msg : MigrateMsg) (s s' : Store) (ms : List CosmosMsg)
        (now : ℕ)
        → Clocked s now
        → migrate legacy msg s ≡ ok (ms, s')
        → Clocked s' now

  pub Clocked-Reach : (s : Store) (now : ℕ) → Clocked s now → Reach s
  Clocked-Reach _ _ (opened env info msg s ms e) = start env info msg s ms e
  Clocked-Reach _ _ (ticked q env info msg s s' ms now c _ e _) =
      step q env info msg s s' ms (Clocked-Reach s now c) e
  Clocked-Reach _ now (upgraded legacy msg s s' ms _ c e) =
      migration legacy msg s s' ms (Clocked-Reach s now c) e

  none_recorded :
      (env : Env) (info : MessageInfo) (msg : InstantiateMsg) (s : Store) (ms : List CosmosMsg)
      (k : ℕ)
      → instantiate env info msg ≡ ok (ms, s)
      → lookup k s.histories ≡ none
  unfolding instantiate
  none_recorded env info msg s ms k e = ground arith

  migrate-period :
      (legacy : Outcome LegacyConfig) (msg : MigrateMsg) (s s' : Store) (ms : List CosmosMsg)
      → migrate legacy msg s ≡ ok (ms, s')
      → s'.parameters.unbonding_period ≡ s.parameters.unbonding_period
  unfolding migrate migrate_config
  migrate-period legacy msg s s' ms e = ground arith

  pub Clocked-IsTimely : (s : Store) (now : ℕ) → Clocked s now → IsTimely s now
  Clocked-IsTimely _ _ (opened env info msg s ms e) = record {
    past = λ k h found. let missing = none_recorded env info msg s ms k e in absurd (cc);
    ordered = λ j k g h _ found _. let missing = none_recorded env info msg s ms j e in absurd (cc);
    waited = λ k h found _. let missing = none_recorded env info msg s ms k e in absurd (cc);
  }
  Clocked-IsTimely _ _ (ticked q env info msg s s' ms now c tick e period) =
      execute-IsTimely q env info msg s s' ms now e tick period
        (Reach-IsValid s (Clocked-Reach s now c)) (Clocked-IsTimely s now c)
  Clocked-IsTimely _ now (upgraded legacy msg s s' ms _ c e) =
      let t = Clocked-IsTimely s now c in
      let same = (migrate-Untouched legacy msg s s' ms e).histories in
      let period = migrate-period legacy msg s s' ms e in
      record {
        past = λ k h found. t.past k h (rw same at found);
        ordered =
            λ j k g h le found found'. t.ordered j k g h le (rw same at found) (rw same at found');
        waited = λ k h found done. rw period (t.waited k h (rw same at found) done);
      }
