-- ===== src/Hub/Clock/Released.antt =====
-- After a withdrawal the released batches are those whose unbonding period is over
-- (contracts/prism_hub/src/unbond.rs, `execute_withdraw_unbonded`).
use prism_auto_compounding_c.Prelude.{
  ℕ, suc, ◌+◌, ◌-◌, ◌≤◌, ◌≡◌, inl, inr, true, false, some, List, arith, Option-cases, ap, ◌∙◌, sym,
}
use native.Mathlib.Decide.{dec_lt}
use prism_auto_compounding_c.Prelude.Assoc.{lookup}
use prism_auto_compounding_c.Outcome.{ok}
use prism_auto_compounding_c.Platform.{Platform}
use prism_auto_compounding_c.Chain.{Env, MessageInfo, Querier, CosmosMsg}
use prism_auto_compounding_c.Protocol.Hub.{UnbondHistory}
use prism_auto_compounding_c.Hub.Store.{Store, read_unbond_history}
use prism_auto_compounding_c.Hub.Withdraw.{
  due_history, process_withdraw_rate, execute_withdraw_unbonded,
}
use prism_auto_compounding_c.Hub.Withdraw.Process.{process_withdraw_rate_lem}
use prism_auto_compounding_c.Hub.Withdraw.Payout.{withdraw_once}
use prism_auto_compounding_c.Hub.Invariant.{IsValid}
use prism_auto_compounding_c.Hub.Invariant.Reach.{Reach-IsValid}
use prism_auto_compounding_c.Hub.Invariant.Handlers.{process_withdraw_rate-IsValid}
use prism_auto_compounding_c.Hub.Histories.{old_enough, process_withdraw_rate-history}
use prism_auto_compounding_c.Hub.Histories.Recorded.{process_withdraw_rate-missing}
use prism_auto_compounding_c.Hub.Clock.{IsTimely, Clocked, Clocked-Reach, Clocked-IsTimely}

module _ ⦃p : Platform⦄ where
  due_history-pending :
      (s : Store) (ht k : ℕ) (h : UnbondHistory)
      → lookup k s.histories ≡ some h
      → h.time ≤ ht
      → h.released ≡ false
      → due_history s ht k ≡ some h
  unfolding due_history read_unbond_history
  due_history-pending s ht k h found old pending = ground arith

  -- Where the times are in order, a release leaves no old batch unreleased.
  release_complete :
      (ht balance now : ℕ) (s s1 : Store) (k : ℕ) (h : UnbondHistory)
      → process_withdraw_rate ht balance s ≡ ok s1
      → IsValid s
      → IsTimely s now
      → lookup k s.histories ≡ some h
      → h.time ≤ ht
      → k ≤ s1.state.last_processed_batch
  release_complete ht balance now s s1 k h e v t found old =
      let last : ℕ = s1.state.last_processed_batch in
      let run = (process_withdraw_rate_lem ht balance s s1 e).run in
      elim (dec_lt last k) [
        | no reached ↦ omega arith
        | yes beyond ↦ elim (Option-cases (lookup (suc last) s.histories)) [
          | inl missing ↦
              let lt = v.fresh k h found in
              absurd (v.recorded (suc last) (omega arith) (omega arith) missing)
          | inr (g, next) ↦
              let order = t.ordered (suc last) k g h (omega arith) next found in
              let reached = run.reached in
              let pending = v.pending (suc last) g next (omega arith) in
              let due = due_history-pending s ht (suc last) g next (omega arith) pending in
              let stopped = run.stopped in absurd (cc)
        ]
      ]

  -- Once a release is done, a batch is released just when it is old.
  pub released_old :
      (ht balance now : ℕ) (s s1 : Store) (k : ℕ) (h : UnbondHistory)
      → process_withdraw_rate ht balance s ≡ ok s1
      → IsValid s
      → IsTimely s now
      → now ≤ ht + s.parameters.unbonding_period
      → lookup k s1.histories ≡ some h
      → (h.released ≡ true → h.time ≤ ht) × (h.time ≤ ht → h.released ≡ true)
  released_old ht balance now s s1 k h e v t late found =
      let v1 = process_withdraw_rate-IsValid ht balance s s1 e v in
      elim (Option-cases (lookup k s.histories)) [
        | inl missing ↦
            let lt = v1.fresh k h found in
            let gone = process_withdraw_rate-missing ht balance s s1 k e missing in absurd (cc)
        | inr (g, before) ↦
            let (h', there, how) = process_withdraw_rate-history ht balance s s1 k g e before in
            let same : h' ≡ h = cc in
            let time : h.time ≡ g.time = elim how [
              | inl kept ↦ ap (λ (x : UnbondHistory). x.time) (sym same ∙ kept)
              | inr (_, (_, released)) ↦ ap (λ (x : UnbondHistory). x.time) (sym same ∙ released)
            ] in
            (
              λ done. elim how [
                | inl kept ↦
                    let mark : g.released ≡ true = cc in
                    let over = t.waited k g before mark in omega arith
                | inr (old, _) ↦ omega arith
              ],
              λ old.
                  let reached =
                    release_complete ht balance now s s1 k g e v t before (omega arith) in
                  v1.done k h found reached,
            )
      ]

  -- After a withdrawal that returns, where no message came before an earlier one and the
  -- unbonding period was not lengthened, a recorded batch is released just when its unbonding
  -- period is over: the withdrawal leaves no old batch behind, and no young one is marked.
  pub withdrawal-releases :
      (q : Querier) (env : Env) (info : MessageInfo) (s s' : Store) (ms : List CosmosMsg)
      (now k : ℕ) (h : UnbondHistory)
      → Clocked s now
      → now ≤ env.time
      → execute_withdraw_unbonded q env info s ≡ ok (ms, s')
      → lookup k s'.histories ≡ some h
      → (h.released ≡ true → h.time + s.parameters.unbonding_period ≤ env.time)
        × (h.time + s.parameters.unbonding_period ≤ env.time → h.released ≡ true)
  withdrawal-releases q env info s s' ms now k h c tick e found =
      let (balance, s1, _, processed, pays) = withdraw_once q env info s s' ms e in
      let period = old_enough q env info s s' ms e in
      let same = ap (λ (t : Store). lookup k t.histories) pays.kept in
      let (old, done) =
        released_old (env.time - s.parameters.unbonding_period) balance now s s1 k h processed
          (Reach-IsValid s (Clocked-Reach s now c)) (Clocked-IsTimely s now c) (omega arith)
          (sym same ∙ found) in
      (λ mark. let before = old mark in omega arith, λ over. done (omega arith))
