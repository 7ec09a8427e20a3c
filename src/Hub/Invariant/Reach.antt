-- ===== src/Hub/Invariant/Reach.antt =====
-- Every store that a hub can reach: it is instantiated once, then changed by the successful
-- messages of contracts/prism_hub/src/contract.rs, `execute`.
use prism_auto_compounding_c.Prelude.{inl, inr, ◌≡◌, List, [], arith}
use prism_auto_compounding_c.Outcome.{Outcome, ok}
use prism_auto_compounding_c.Platform.{Platform}
use prism_auto_compounding_c.Chain.{Env, MessageInfo, Querier, CosmosMsg}
use prism_auto_compounding_c.Protocol.Hub.{InstantiateMsg, MigrateMsg, ExecuteMsg}
use prism_auto_compounding_c.Hub.Store.{Store}
use prism_auto_compounding_c.Hub.Admin.{LegacyConfig, migrate}
use prism_auto_compounding_c.Hub.Instantiate.{instantiate}
use prism_auto_compounding_c.Hub.Contract.{execute}
use prism_auto_compounding_c.Hub.Invariant.{IsValid}
use prism_auto_compounding_c.Hub.Invariant.Frames.{migrate-Untouched}
use prism_auto_compounding_c.Hub.Invariant.Cases.{execute_cases}
use prism_auto_compounding_c.Hub.Invariant.Handlers.{
  Untouched-IsValid, execute_unbond-IsValid, execute_withdraw_unbonded-IsValid,
}

module _ ⦃p : Platform⦄ where
  open p use {addr_canonicalize, addr_validate}

  -- Every message that succeeds keeps the invariant of the batches.
  pub execute-IsValid :
      (q : Querier) (env : Env) (info : MessageInfo) (s s' : Store) (msg : ExecuteMsg)
      (ms : List CosmosMsg)
      → execute q env info s msg ≡ ok (ms, s')
      → IsValid s
      → IsValid s'
  execute-IsValid q env info s s' msg ms e v = elim (execute_cases q env info s s' msg ms e) [
    | inl untouched ↦ Untouched-IsValid untouched v
    | inr (inl (m, _, run)) ↦ execute_unbond-IsValid q env m.amount m.sender s s' ms run v
    | inr (inr (_, run)) ↦ execute_withdraw_unbonded-IsValid q env info s s' ms run v
  ]

  instantiate-IsValid :
      (env : Env) (info : MessageInfo) (msg : InstantiateMsg) (s : Store) (ms : List CosmosMsg)
      → instantiate env info msg ≡ ok (ms, s)
      → IsValid s
  unfolding instantiate
  instantiate-IsValid env info msg s ms e =
      let none_recorded : s.histories ≡ [] = ground arith in
      let first : s.current_batch.id ≡ 1 = ground arith in
      let none_processed : s.state.last_processed_batch ≡ 0 = ground arith in
      record {
        fresh = λ k h found. absurd (ground (arith));
        recorded = λ k pos lt. absurd (omega arith);
        numbered = λ k h found. absurd (ground (arith));
        processed = omega arith;
        done = λ k h found le. absurd (ground (arith));
        pending = λ k h found lt. absurd (ground (arith));
      }

  -- A history of a hub: one instantiation, then messages that succeed, each with its own
  -- sender, block and answers of the chain, and migrations.
  pub data Reach : Store → Type 0 where
    start :
        (env : Env) (info : MessageInfo) (msg : InstantiateMsg) (s : Store) (ms : List CosmosMsg)
        → instantiate env info msg ≡ ok (ms, s)
        → Reach s
    step :
        (q : Querier) (env : Env) (info : MessageInfo) (msg : ExecuteMsg) (s s' : Store)
        (ms : List CosmosMsg)
        → Reach s
        → execute q env info s msg ≡ ok (ms, s')
        → Reach s'
    migration :
        (legacy : Outcome LegacyConfig) (msg : MigrateMsg) (s s' : Store) (ms : List CosmosMsg)
        → Reach s
        → migrate legacy msg s ≡ ok (ms, s')
        → Reach s'

  -- In every store that a hub can reach by one instantiation, successful messages and
  -- migrations, the unbonding histories are recorded without a gap under the ids from 1 up to
  -- the current batch's, that one excluded, each under its own id, and the released ones are
  -- exactly those up to the last processed batch.
  pub Reach-IsValid : (s : Store) → Reach s → IsValid s
  Reach-IsValid _ (start env info msg s ms e) = instantiate-IsValid env info msg s ms e
  Reach-IsValid _ (step q env info msg s t ms r e) =
      execute-IsValid q env info s t msg ms e (Reach-IsValid s r)
  Reach-IsValid _ (migration legacy msg s t ms r e) =
      Untouched-IsValid (migrate-Untouched legacy msg s t ms e) (Reach-IsValid s r)
