-- ===== src/Hub/Claims/Reach.antt =====
-- The claims in every store that a hub can reach.
use prism_auto_compounding_c.Prelude.{ℕ, String, ◌≡◌, refl, inl, inr, List, [], ◌∷◌, arith}
use prism_auto_compounding_c.Outcome.{ok}
use prism_auto_compounding_c.Platform.{Platform}
use prism_auto_compounding_c.Chain.{Env, MessageInfo, Querier, CosmosMsg}
use prism_auto_compounding_c.Protocol.Hub.{InstantiateMsg, ExecuteMsg}
use prism_auto_compounding_c.Hub.Store.{Store}
use prism_auto_compounding_c.Hub.Instantiate.{instantiate}
use prism_auto_compounding_c.Hub.Contract.{execute}
use prism_auto_compounding_c.Hub.Invariant.{IsValid}
use prism_auto_compounding_c.Hub.Invariant.Frames.{migrate-Untouched}
use prism_auto_compounding_c.Hub.Invariant.Cases.{execute_cases}
use prism_auto_compounding_c.Hub.Invariant.Reach.{Reach, start, step, migration, Reach-IsValid}
use prism_auto_compounding_c.Hub.Claims.{asked_by, IsCovered}
use prism_auto_compounding_c.Hub.Claims.Steps.{
  execute_unbond-IsCovered, execute_withdraw_unbonded-IsCovered,
}
use prism_auto_compounding_c.Hub.Claims.Changes.{Untouched-IsCovered}

nothing_asked :
    (s : Store) (us : List String) (k : ℕ)
    → ((u : String) → s.wait_lists u ≡ [])
    → asked_by s us k ≡ 0
nothing_asked s [] k empty = refl
nothing_asked s (u ∷ us) k empty = rw (empty u, nothing_asked s us k empty)

module _ ⦃p : Platform⦄ where
  instantiate-IsCovered :
      (env : Env) (info : MessageInfo) (msg : InstantiateMsg) (s : Store) (ms : List CosmosMsg)
      → instantiate env info msg ≡ ok (ms, s)
      → IsCovered s
  unfolding instantiate
  instantiate-IsCovered env info msg s ms e =
      let lists : s.wait_lists ≡ λ _. [] = ground arith in
      record { claims = λ us k d. rw (nothing_asked s us k (λ u. rw lists)) (omega arith) }

  execute-IsCovered :
      (q : Querier) (env : Env) (info : MessageInfo) (s s' : Store) (msg : ExecuteMsg)
      (ms : List CosmosMsg)
      → execute q env info s msg ≡ ok (ms, s')
      → IsValid s
      → IsCovered s
      → IsCovered s'
  execute-IsCovered q env info s s' msg ms e v c = elim (execute_cases q env info s s' msg ms e) [
    | inl untouched ↦ Untouched-IsCovered untouched c
    | inr (inl (m, _, run)) ↦ execute_unbond-IsCovered q env m.amount m.sender s s' ms run v c
    | inr (inr (_, run)) ↦ execute_withdraw_unbonded-IsCovered q env info s s' ms run c
  ]

  -- In every store that a hub can reach, no group of different users has asked for more of a
  -- batch than the batch holds: the running sum of the open batch, the recorded amount of a
  -- closed one, and nothing of any other.
  pub Reach-IsCovered : (s : Store) → Reach s → IsCovered s
  Reach-IsCovered _ (start env info msg s ms e) = instantiate-IsCovered env info msg s ms e
  Reach-IsCovered _ (step q env info msg s t ms r e) =
      execute-IsCovered q env info s t msg ms e (Reach-IsValid s r) (Reach-IsCovered s r)
  Reach-IsCovered _ (migration legacy msg s t ms r e) =
      Untouched-IsCovered (migrate-Untouched legacy msg s t ms e) (Reach-IsCovered s r)
