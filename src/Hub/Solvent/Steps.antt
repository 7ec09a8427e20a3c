-- ===== src/Hub/Solvent/Steps.antt =====
-- Each handler keeps the hub solvent, a withdrawal at a balance that affords it.
use mathlib.Core.Option
use prism_auto_compounding_c.Prelude.{
  ℕ, String, ◌-◌, ◌≤◌, ◌<◌, ◌≡◌, refl, inl, inr, List, arith, ap, sum_by, ◌∙◌, sym, str_eq, eq_iff,
  Bool-cases,
}
use prism_auto_compounding_c.Prelude.Assoc.{lookup, lookup-insert_ne}
use prism_auto_compounding_c.Outcome.{ok}
use prism_auto_compounding_c.Platform.{Platform}
use prism_auto_compounding_c.Chain.{Env, MessageInfo, Querier, CosmosMsg}
use prism_auto_compounding_c.Protocol.Hub.{CurrentBatch, State, UnbondHistory}
use prism_auto_compounding_c.Hub.Store.{Store, store_unbond_history}
use prism_auto_compounding_c.Hub.Validators.Whitelist.{Distinct}
use prism_auto_compounding_c.Hub.Slashing.Laws.{slashing_frame, update_exchange_rate_frame}
use prism_auto_compounding_c.Hub.Unbond.{execute_unbond}
use prism_auto_compounding_c.Hub.Unbond.Effect.{Requests, Saves, execute_unbond_lem}
use prism_auto_compounding_c.Hub.Withdraw.{process_withdraw_rate, execute_withdraw_unbonded}
use prism_auto_compounding_c.Hub.Withdraw.Payout.{PaysOut, withdraw_once}
use prism_auto_compounding_c.Hub.Withdraw.Process.{process_withdraw_rate_lem}
use prism_auto_compounding_c.Hub.Invariant.{IsValid}
use prism_auto_compounding_c.Hub.Invariant.Frames.{Untouched, SameButBond-Untouched}
use prism_auto_compounding_c.Hub.Invariant.Handlers.{
  process_withdraw_rate-IsValid, requested-IsValid, execute_withdraw_unbonded-IsValid,
}
use prism_auto_compounding_c.Hub.Invariant.Reach.{Reach, Reach-IsValid}
use prism_auto_compounding_c.Hub.Solvent.{owed, owed-same, IsSolvent, later-IsSolvent}
use prism_auto_compounding_c.Hub.Solvent.Listed.{
  IsListed, Reach-IsListed, process_withdraw_rate-lists,
}
use prism_auto_compounding_c.Hub.Solvent.Owed.{get_finished_amount-owed}
use prism_auto_compounding_c.Hub.Solvent.Release.{Affords, released_owed, paid_sum}

pub Untouched-IsSolvent : {s s' : Store} → Untouched s s' → IsSolvent s → IsSolvent s'
Untouched-IsSolvent {s = s} {s' = s'} u v =
    later-IsSolvent s s' (u.last) (u.remembered) (u.unbonded)
      (λ k le. ap (λ (m : List (ℕ × UnbondHistory)). lookup k m) u.histories)
      (λ w k le. ap (λ (l : String → List (ℕ × ℕ)). Option.get_or (lookup k (l w)) 0) u.lists) v

module _ ⦃p : Platform⦄ where
  -- The store between a request and its saving.
  requested-IsSolvent :
      (amount supply : ℕ) (user : String) (s1 s2 : Store) (batch0 batch : CurrentBatch) (st : State)
      → Requests amount supply user batch0 s1 batch st s2
      → s1.state.last_processed_batch < batch0.id
      → IsSolvent s1
      → IsSolvent (record s2 { current_batch = batch; state = st })
  requested-IsSolvent amount supply user s1 s2 batch0 batch st r below v =
      let rated = update_exchange_rate_frame _ st _ _ r.rate in
      later-IsSolvent s1 _ (ap (λ (t : State). t.last_processed_batch) rated)
        (ap (λ (t : State). t.prev_hub_balance) rated)
        (ap (λ (t : State). t.actual_unbonded_amount) rated)
        (λ k le. ap (λ (t : Store). lookup k t.histories) r.only_lists)
        (λ u k le. elim (Bool-cases (str_eq u user)) [
          | inl it ↦ rw ((eq_iff u user).0 it, r.other_batches k (λ e. omega arith)) refl
          | inr other ↦ rw (r.other_users u (λ e. ground (arith, eq_iff u user))) refl
        ])
        v

  saved-IsSolvent :
      (q : Querier) (env : Env) (amount : ℕ) (batch : CurrentBatch) (st : State) (s s' : Store)
      (ms : List CosmosMsg)
      → Saves q env amount batch st s s' ms
      → IsValid (record s { current_batch = batch; state = st })
      → IsSolvent (record s { current_batch = batch; state = st })
      → IsSolvent s'
  unfolding store_unbond_history
  saved-IsSolvent q env amount batch st s s' ms saves valid v =
      let lists = ap (λ (t : Store). t.wait_lists) saves.kept in
      let below = valid.processed in
      let open_store : Store = record s { current_batch = batch; state = st } in
      let listed = λ (u : String) (k : ℕ) (le : k ≤ st.last_processed_batch).
        ap (λ (l : String → List (ℕ × ℕ)). Option.get_or (lookup k (l u)) 0) lists in
      elim (saves.outcome) [
        | inl (_, _, _, same_state, same_histories) ↦
            later-IsSolvent open_store s' (ap (λ (t : State). t.last_processed_batch) same_state)
              (ap (λ (t : State). t.prev_hub_balance) same_state)
              (ap (λ (t : State). t.actual_unbonded_amount) same_state)
              (λ k le. ap (λ (m : List (ℕ × UnbondHistory)). lookup k m) same_histories) listed v
        | inr (_, closes) ↦
            later-IsSolvent open_store s' (ap (λ (t : State). t.last_processed_batch) closes.left)
              (ap (λ (t : State). t.prev_hub_balance) closes.left)
              (ap (λ (t : State). t.actual_unbonded_amount) closes.left)
              (λ k le.
                ap (λ (t : Store). lookup k t.histories) closes.recorded
                ∙ lookup-insert_ne k batch.id _ s.histories (λ e. omega arith))
              listed v
      ]

  pub execute_unbond-IsSolvent :
      (q : Querier) (env : Env) (amount : ℕ) (user : String) (s s' : Store) (ms : List CosmosMsg)
      → execute_unbond q env amount user s ≡ ok (ms, s')
      → IsValid s
      → IsSolvent s
      → IsSolvent s'
  execute_unbond-IsSolvent q env amount user s s' ms e valid v =
      let (s1, supply, batch, st, s2, checked, issued, requests, saves) =
        execute_unbond_lem q env amount user s s' ms e in
      let first = SameButBond-Untouched (slashing_frame q env s s1 checked) in
      let below = valid.processed in
      let last = first.last in
      saved-IsSolvent q env amount batch st s2 s' ms saves
        (requested-IsValid q env amount supply user s s1 s2 batch st checked requests valid)
        (requested-IsSolvent amount supply user s1 s2 (s.current_batch) batch st requests
          (omega arith) (Untouched-IsSolvent first v))

  -- The payment: the user's claims go with the coins he gets.
  paid-IsSolvent :
      (env : Env) (user denom : String) (balance : ℕ) (s1 s' : Store) (ms : List CosmosMsg)
      → PaysOut env user denom balance s1 s' ms
      → s1.state.actual_unbonded_amount ≡ 0
      → IsValid s1
      → IsValid s'
      → IsListed s1
      → IsListed s'
      → ((us : List String) → Distinct us → sum_by (λ u. owed s1 u) us ≤ balance)
      → IsSolvent s'
  paid-IsSolvent env user denom balance s1 s' ms pays settled valid valid' listed listed' bound =
      let histories = ap (λ (t : Store). t.histories) pays.kept in
      let last = ap (λ (t : Store). t.state.last_processed_batch) pays.kept in
      let left = ap (λ (t : Store). t.state.prev_hub_balance) pays.kept in
      let amount_owed =
        get_finished_amount-owed s1 user (pays.amount) valid (listed user) (pays.finished) in
      let nothing = get_finished_amount-owed s' user 0 valid' (listed' user) (pays.nothing_left) in
      record {
        claims = λ us d.
            let sum =
              paid_sum (λ u. owed s1 u) (λ u. owed s' u) user balance
                (λ u ne.
                  owed-same s1 s' u last
                    (λ k le. ap (λ (m : List (ℕ × UnbondHistory)). lookup k m) histories)
                    (λ k le.
                      ap (λ (l : List (ℕ × ℕ)). Option.get_or (lookup k l) 0) (pays.others u ne)))
                (sym nothing) bound us d in
            omega arith;
        settled = ap (λ (t : Store). t.state.actual_unbonded_amount) pays.kept ∙ settled;
      }

  pub execute_withdraw_unbonded-IsSolvent :
      (q : Querier) (env : Env) (info : MessageInfo) (s s' : Store) (ms : List CosmosMsg)
      → execute_withdraw_unbonded q env info s ≡ ok (ms, s')
      → ((balance : ℕ) (s1 : Store)
          → q.balance env.contract s.parameters.underlying_coin_denom ≡ ok balance
          → process_withdraw_rate (env.time - s.parameters.unbonding_period) balance s ≡ ok s1
          → Affords balance s s1)
      → Reach s
      → IsListed s'
      → IsSolvent s
      → IsSolvent s'
  execute_withdraw_unbonded-IsSolvent q env info s s' ms e affords r listed' v =
      let (balance, s1, asked_for, processed, pays) = withdraw_once q env info s s' ms e in
      let valid = Reach-IsValid s r in
      let a = affords balance s1 asked_for processed in
      let settled =
        ap (λ (t : Store). t.state.actual_unbonded_amount)
          (process_withdraw_rate_lem _ balance s s1 processed).rest in
      let lists = process_withdraw_rate-lists _ balance s s1 processed in
      let listed = Reach-IsListed s r in
      paid-IsSolvent env (info.sender) (s.parameters.underlying_coin_denom) balance s1 s' ms pays
        settled (process_withdraw_rate-IsValid _ balance s s1 processed valid)
        (execute_withdraw_unbonded-IsValid q env info s s' ms e valid) (λ u. rw lists (listed u))
        listed' (λ us d. released_owed _ balance s s1 us r v processed a d)
