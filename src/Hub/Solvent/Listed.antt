-- ===== src/Hub/Solvent/Listed.antt =====
-- The wait lists of a reachable hub hold each batch once, in ascending order.
use prism_auto_compounding_c.Prelude.{
  ℕ, String, ◌≡◌, ◌≢◌, inl, inr, List, [], ◌∷◌, arith, ap, str_eq, eq_iff, Bool-cases,
}
use prism_auto_compounding_c.Prelude.Assoc.{erase, Ascending, insert-Ascending, erase-Ascending}
use prism_auto_compounding_c.Outcome.{ok}
use prism_auto_compounding_c.Platform.{Platform}
use prism_auto_compounding_c.Chain.{Env, MessageInfo, Querier, CosmosMsg}
use prism_auto_compounding_c.Protocol.Hub.{InstantiateMsg, ExecuteMsg}
use prism_auto_compounding_c.Hub.Store.{Store, erase_all, get_unbond_batches}
use prism_auto_compounding_c.Hub.Slashing.Laws.{slashing_frame}
use prism_auto_compounding_c.Hub.Unbond.{execute_unbond}
use prism_auto_compounding_c.Hub.Unbond.Effect.{execute_unbond_lem}
use prism_auto_compounding_c.Hub.Withdraw.{process_withdraw_rate, execute_withdraw_unbonded}
use prism_auto_compounding_c.Hub.Withdraw.Process.{process_withdraw_rate_lem}
use prism_auto_compounding_c.Hub.Withdraw.Payout.{withdraw_once}
use prism_auto_compounding_c.Hub.Instantiate.{instantiate}
use prism_auto_compounding_c.Hub.Contract.{execute}
use prism_auto_compounding_c.Hub.Invariant.Frames.{SameButBond-Untouched, migrate-Untouched}
use prism_auto_compounding_c.Hub.Invariant.Cases.{execute_cases}
use prism_auto_compounding_c.Hub.Invariant.Reach.{Reach, start, step, migration}

abbrev pub IsListed : Store → Type 0
IsListed s = (u : String) → Ascending (s.wait_lists u)

erase_all-Ascending : (bs : List ℕ) (m : List (ℕ × ℕ)) → Ascending m → Ascending (erase_all bs m)
unfolding erase_all
erase_all-Ascending [] m h = h
erase_all-Ascending (b ∷ bs) m h = erase_all-Ascending bs (erase b m) (erase-Ascending b m h)

same-IsListed : (s s' : Store) → s'.wait_lists ≡ s.wait_lists → IsListed s → IsListed s'
same-IsListed s s' lists h u = rw lists (h u)

-- One user's list changes.
one-IsListed :
    (s s' : Store) (user : String) (l : List (ℕ × ℕ))
    → s'.wait_lists user ≡ l
    → Ascending l
    → ((u : String) → u ≢ user → s'.wait_lists u ≡ s.wait_lists u)
    → IsListed s
    → IsListed s'
one-IsListed s s' user l new a others h u = elim (Bool-cases (str_eq u user)) [
  | inl it ↦ rw ((eq_iff u user).0 it, new) a
  | inr other ↦ rw (others u (λ e. ground (arith, eq_iff u user))) (h u)
]

module _ ⦃p : Platform⦄ where
  execute_unbond-IsListed :
      (q : Querier) (env : Env) (amount : ℕ) (user : String) (s s' : Store) (ms : List CosmosMsg)
      → execute_unbond q env amount user s ≡ ok (ms, s')
      → IsListed s
      → IsListed s'
  execute_unbond-IsListed q env amount user s s' ms e h =
      let (s1, supply, batch, st, s2, checked, issued, requests, saves) =
        execute_unbond_lem q env amount user s s' ms e in
      let first = SameButBond-Untouched (slashing_frame q env s s1 checked) in
      let h1 = same-IsListed s s1 (first.lists) h in
      let h2 =
        one-IsListed s1 s2 user _ (requests.inserted) (insert-Ascending _ _ _ (h1 user))
          (requests.other_users) h1 in
      same-IsListed s2 s' (ap (λ (t : Store). t.wait_lists) saves.kept) h2

  pub process_withdraw_rate-lists :
      (ht balance : ℕ) (s s' : Store)
      → process_withdraw_rate ht balance s ≡ ok s'
      → s'.wait_lists ≡ s.wait_lists
  process_withdraw_rate-lists ht balance s s' e =
      ap (λ (t : Store). t.wait_lists) (process_withdraw_rate_lem ht balance s s' e).rest

  execute_withdraw_unbonded-IsListed :
      (q : Querier) (env : Env) (info : MessageInfo) (s s' : Store) (ms : List CosmosMsg)
      → execute_withdraw_unbonded q env info s ≡ ok (ms, s')
      → IsListed s
      → IsListed s'
  execute_withdraw_unbonded-IsListed q env info s s' ms e h =
      let (balance, s1, asked_for, processed, pays) = withdraw_once q env info s s' ms e in
      let h1 = same-IsListed s s1 (process_withdraw_rate-lists _ balance s s1 processed) h in
      one-IsListed s1 s' (info.sender) _ (pays.removed)
        (erase_all-Ascending (get_unbond_batches s1 info.sender) _ (h1 (info.sender))) (pays.others)
        h1

  execute-IsListed :
      (q : Querier) (env : Env) (info : MessageInfo) (s s' : Store) (msg : ExecuteMsg)
      (ms : List CosmosMsg)
      → execute q env info s msg ≡ ok (ms, s')
      → IsListed s
      → IsListed s'
  execute-IsListed q env info s s' msg ms e h = elim (execute_cases q env info s s' msg ms e) [
    | inl untouched ↦ same-IsListed s s' (untouched.lists) h
    | inr (inl (m, _, run)) ↦ execute_unbond-IsListed q env m.amount m.sender s s' ms run h
    | inr (inr (_, run)) ↦ execute_withdraw_unbonded-IsListed q env info s s' ms run h
  ]

  instantiate-IsListed :
      (env : Env) (info : MessageInfo) (msg : InstantiateMsg) (s : Store) (ms : List CosmosMsg)
      → instantiate env info msg ≡ ok (ms, s)
      → IsListed s
  unfolding instantiate
  instantiate-IsListed env info msg s ms e u =
      let lists : s.wait_lists ≡ λ _. [] = ground arith in rw lists tt

  -- In every store that a hub can reach, each user's wait list names each batch once, in
  -- ascending order.
  pub Reach-IsListed : (s : Store) → Reach s → IsListed s
  Reach-IsListed _ (start env info msg s ms e) = instantiate-IsListed env info msg s ms e
  Reach-IsListed _ (step q env info msg s t ms r e) =
      execute-IsListed q env info s t msg ms e (Reach-IsListed s r)
  Reach-IsListed _ (migration legacy msg s t ms r e) =
      same-IsListed s t (migrate-Untouched legacy msg s t ms e).lists (Reach-IsListed s r)
