-- ===== src/Hub/Solvent/Payment.antt =====
-- A withdrawal in a run whose withdrawals are afforded: it pays, or nothing is owed.
use prism_auto_compounding_c.Prelude.{
  ℕ, String, ◌+◌, ◌-◌, ◌≤◌, ◌<◌, ◌≡◌, ◌⊎◌, refl, inl, inr, false, [], ◌∷◌, arith,
}
use native.Mathlib.Decide.{dec_lt}
use prism_auto_compounding_c.Outcome.{ok, err, no_withdrawable}
use prism_auto_compounding_c.Machine.{u64_max}
use prism_auto_compounding_c.Platform.{Platform, uint128_max}
use prism_auto_compounding_c.Chain.{Env, MessageInfo, Querier, bank_send}
use prism_auto_compounding_c.Protocol.Hub.{withdraw_unbonded}
use prism_auto_compounding_c.Hub.Store.{Store, get_finished_amount}
use prism_auto_compounding_c.Hub.Admin.{is_contract_paused}
use prism_auto_compounding_c.Hub.Contract.{execute}
use prism_auto_compounding_c.Hub.Withdraw.{process_withdraw_rate, execute_withdraw_unbonded}
use prism_auto_compounding_c.Hub.Withdraw.Payout.{paid}
use prism_auto_compounding_c.Hub.Withdraw.Counting.{expected_run}
use prism_auto_compounding_c.Hub.Withdraw.Solvency.{first_of, run_of, arrived}
use prism_auto_compounding_c.Hub.Withdraw.Returns.{AllDue, process_withdraw_rate_returns}
use prism_auto_compounding_c.Hub.Invariant.Handlers.{process_withdraw_rate-IsValid}
use prism_auto_compounding_c.Hub.Invariant.Reach.{Reach-IsValid}
use prism_auto_compounding_c.Hub.Solvent.{owed}
use prism_auto_compounding_c.Hub.Solvent.Listed.{Reach-IsListed, process_withdraw_rate-lists}
use prism_auto_compounding_c.Hub.Solvent.Owed.{get_finished_amount-fits}
use prism_auto_compounding_c.Hub.Solvent.Release.{Affords, released_owed}
use prism_auto_compounding_c.Hub.Solvent.Runs.{
  AffordedRun, AffordedRun-Reach, AffordedRun-IsSolvent,
}

module _ ⦃p : Platform⦄ where
  open p use {uint_checked_sub_lem}

  -- The two ends of a withdrawal message behind a release that leaves `s1`: nothing is owed and
  -- it is refused, or what is owed is sent in one message and taken off the balance.
  abbrev pub Paid : Querier → Env → MessageInfo → ℕ → Store → Store → Type 0
  Paid q env info balance s s1 =
      let denom = s.parameters.underlying_coin_denom in
      let amount : ℕ = owed s1 info.sender in
      ((amount ≡ 0) × (execute q env info s withdraw_unbonded ≡ err (no_withdrawable denom)))
      ⊎ ((0 < amount)
          × (s' : Store) × (execute q env info s withdraw_unbonded
              ≡ ok
                  (bank_send info.sender (record { denom = denom; amount = amount } ∷ []) ∷ [], s'))
          × (s'.state.prev_hub_balance ≡ balance - amount))

  message_runs :
      (q : Querier) (env : Env) (info : MessageInfo) (s : Store)
      → s.paused ≡ false
      → execute q env info s withdraw_unbonded ≡ execute_withdraw_unbonded q env info s
  unfolding execute is_contract_paused
  message_runs q env info s running = ground arith

  handler_ends :
      (q : Querier) (env : Env) (info : MessageInfo) (balance amount : ℕ) (s s1 : Store)
      → q.balance env.contract s.parameters.underlying_coin_denom ≡ ok balance
      → s.parameters.unbonding_period ≤ env.time
      → process_withdraw_rate (env.time - s.parameters.unbonding_period) balance s ≡ ok s1
      → get_finished_amount s1 info.sender ≡ ok amount
      → amount ≤ balance
      → let denom = s.parameters.underlying_coin_denom in
        ((amount ≡ 0) × (execute_withdraw_unbonded q env info s ≡ err (no_withdrawable denom)))
        ⊎ ((0 < amount)
            × (s' : Store) × (execute_withdraw_unbonded q env info s
                ≡ ok (
                  bank_send info.sender (record { denom = denom; amount = amount } ∷ []) ∷ [],
                  s',
                ))
            × (s'.state.prev_hub_balance ≡ balance - amount))
  unfolding execute_withdraw_unbonded
  handler_ends q env info balance amount s s1 asked old processed finished covered =
      let left = uint_checked_sub_lem balance amount in
      elim (dec_lt 0 amount) [
        | yes some_owed ↦
            inr (some_owed, paid s1 info.sender (balance - amount), ground (arith, left), refl)
        | no none_owed ↦ inl (omega arith, ground (arith, left))
      ]

  owed_covered :
      (ht balance : ℕ) (user : String) (s s1 : Store)
      → AffordedRun s
      → process_withdraw_rate ht balance s ≡ ok s1
      → Affords balance s s1
      → balance ≤ uint128_max
      → (get_finished_amount s1 user ≡ ok (owed s1 user)) × (owed s1 user ≤ balance)
  owed_covered ht balance user s s1 r e a fits =
      let reach = AffordedRun-Reach s r in
      let all =
        released_owed ht balance s s1 (user ∷ []) reach (AffordedRun-IsSolvent s r) e a
          (refl, tt) in
      let valid = process_withdraw_rate-IsValid ht balance s s1 e (Reach-IsValid s reach) in
      let listed = Reach-IsListed s reach user in
      let lists = process_withdraw_rate-lists ht balance s s1 e in
      (get_finished_amount-fits s1 user valid (rw lists listed) (omega arith), omega arith)

  -- In a run whose withdrawals are afforded, a withdrawal message to a running hub, whose release
  -- goes through at a balance that affords it, never fails for want of coins: it sends the user
  -- what he is owed and takes that off the balance, or nothing is owed and it is refused.
  pub withdrawal_ends :
      (q : Querier) (env : Env) (info : MessageInfo) (balance : ℕ) (s s1 : Store)
      → AffordedRun s
      → s.paused ≡ false
      → s.parameters.unbonding_period ≤ env.time
      → q.balance env.contract s.parameters.underlying_coin_denom ≡ ok balance
      → balance ≤ uint128_max
      → process_withdraw_rate (env.time - s.parameters.unbonding_period) balance s ≡ ok s1
      → Affords balance s s1
      → Paid q env info balance s s1
  withdrawal_ends q env info balance s s1 r running old asked fits e a =
      let (finished, covered) =
        owed_covered (env.time - s.parameters.unbonding_period) balance (info.sender) s s1 r e a
          fits in
      rw (message_runs q env info s running)
        (handler_ends q env info balance (owed s1 info.sender) s s1 asked old e finished covered)

  -- A balance that brings exactly what the due batches were expected to affords their release.
  pub full-Affords :
      (balance n : ℕ) (s s1 : Store)
      → s.state.prev_hub_balance ≤ balance
      → s1.state.last_processed_batch ≡ s.state.last_processed_batch + n
      → expected_run s (first_of s) n ≡ arrived s balance
      → Affords balance s s1
  full-Affords balance n s s1 grown last sum =
      let length : run_of s s1 ≡ n = omega arith in
      let exact : expected_run s (first_of s) (run_of s s1) ≡ arrived s balance = rw length sum in
      record {
        grown = grown;
        shared = record {
          few = rw exact (ground arith);
          small = λ k h low high found loss. absurd (omega arith);
        };
      }

  -- In a run whose withdrawals are afforded, where the due batches, each of some worth and with a
  -- rate that fits, have brought back in full what they were expected to and the balance and the
  -- ids fit, the withdrawal message of any user to a running hub ends: the release goes through,
  -- and the user is sent what he is owed, or nothing is owed and he is refused.
  pub full_withdrawal_ends :
      (q : Querier) (env : Env) (info : MessageInfo) (balance n : ℕ) (s : Store)
      → AffordedRun s
      → s.paused ≡ false
      → s.parameters.unbonding_period ≤ env.time
      → q.balance env.contract s.parameters.underlying_coin_denom ≡ ok balance
      → balance ≤ uint128_max
      → s.state.prev_hub_balance ≤ balance
      → AllDue s (env.time - s.parameters.unbonding_period) (first_of s) n
      → expected_run s (first_of s) n ≡ arrived s balance
      → first_of s + n ≤ u64_max
      → (s1 : Store) × (process_withdraw_rate (env.time - s.parameters.unbonding_period) balance s
          ≡ ok s1)
        × Paid q env info balance s s1
  full_withdrawal_ends q env info balance n s r running old asked fits grown due sum low =
      let settled = (AffordedRun-IsSolvent s r).settled in
      let (s1, released, last, rates) =
        process_withdraw_rate_returns (env.time - s.parameters.unbonding_period) balance s n due sum
          (ground arith) low in
      (
        s1,
        released,
        withdrawal_ends q env info balance s s1 r running old asked fits released
            (full-Affords balance n s s1 grown last sum),
      )
