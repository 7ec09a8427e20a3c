-- ===== src/Hub/Clock/Queried.antt =====
-- What a withdrawal pays is what the query's loop counts (contracts/prism_hub/src/state.rs,
-- `query_get_finished_amount` and `get_finished_amount`).
use prism_auto_compounding_c.Prelude.{
  ℕ, ◌+◌, ◌-◌, ◌≤◌, ◌≡◌, refl, inl, inr, Bool, true, some, List, [], ◌∷◌, arith, ltb, Option-cases,
  Bool-cases, ◌∙◌, sym,
}
use native.Mathlib.Decide.{dec_lt}
use prism_auto_compounding_c.Prelude.Assoc.{lookup}
use prism_auto_compounding_c.Outcome.{ok, Outcome-cases}
use prism_auto_compounding_c.Platform.{Platform}
use prism_auto_compounding_c.Chain.{Env, MessageInfo, Querier, CosmosMsg, bank_send}
use prism_auto_compounding_c.Protocol.Hub.{UnbondHistory}
use prism_auto_compounding_c.Hub.Store.{
  Store, read_unbond_history, add_withdrawable, withdrawable_from, get_finished_amount,
  query_get_finished_amount,
}
use prism_auto_compounding_c.Hub.Withdraw.{process_withdraw_rate, execute_withdraw_unbonded}
use prism_auto_compounding_c.Hub.Withdraw.Payout.{withdraw_once}
use prism_auto_compounding_c.Hub.Invariant.Reach.{Reach-IsValid}
use prism_auto_compounding_c.Hub.Histories.{old_enough}
use prism_auto_compounding_c.Hub.Clock.{Clocked, Clocked-Reach, Clocked-IsTimely}
use prism_auto_compounding_c.Hub.Clock.Released.{released_old}

module _ ⦃p : Platform⦄ where
  open p use {uint_add, uint_mul_decimal, ascending_batches}

  -- Two tests that agree on the recorded histories count the same.
  add_withdrawable-agree :
      (f g : UnbondHistory → Bool) (s : Store) (k v total : ℕ)
      → ((h : UnbondHistory) → lookup k s.histories ≡ some h → f h ≡ g h)
      → add_withdrawable f s k v total ≡ add_withdrawable g s k v total
  unfolding add_withdrawable read_unbond_history
  add_withdrawable-agree f g s k v total agree = elim (Option-cases (lookup k s.histories)) [
    | inl missing ↦ ground arith
    | inr (h, found) ↦ let test = agree h found in ground arith
  ]

  withdrawable_from-agree :
      (f g : UnbondHistory → Bool) (s : Store) (l : List (ℕ × ℕ)) (total : ℕ)
      → ((k : ℕ) (h : UnbondHistory) → lookup k s.histories ≡ some h → f h ≡ g h)
      → withdrawable_from f s l total ≡ withdrawable_from g s l total
  unfolding withdrawable_from
  withdrawable_from-agree f g s [] total agree = refl
  withdrawable_from-agree f g s ((k, v) ∷ l) total agree =
      let first = add_withdrawable-agree f g s k v total (agree k) in
      elim (Outcome-cases (add_withdrawable g s k v total)) [
        | inl (total', added) ↦
            let rest = withdrawable_from-agree f g s l total' agree in ground (arith, first, rest)
        | inr other ↦ ground (arith, first, other)
      ]

  released_before :
      (h : UnbondHistory) (ht : ℕ)
      → (h.released ≡ true → h.time ≤ ht)
      → (h.time ≤ ht → h.released ≡ true)
      → h.released ≡ ltb h.time (ht + 1)
  released_before h ht old done = elim (Bool-cases (h.released)) [
    | inl mark ↦ let before = old mark in rw mark (ground arith)
    | inr pending ↦ elim (dec_lt ht h.time) [
      | yes young ↦ rw pending (ground arith)
      | no over ↦ let mark = done (omega arith) in absurd (cc)
    ]
  ]

  -- Where no message came before an earlier one and the unbonding period was not lengthened, a
  -- withdrawal that returns pays what the query's loop, which goes by the times of the batches
  -- and not by their marks, counts on the histories that the release leaves, when it is asked
  -- for the batches closed up to one unbonding period ago.
  pub withdrawal-query :
      (q : Querier) (env : Env) (info : MessageInfo) (s s' : Store) (ms : List CosmosMsg) (now : ℕ)
      → Clocked s now
      → now ≤ env.time
      → execute_withdraw_unbonded q env info s ≡ ok (ms, s')
      → (balance : ℕ) × (s1 : Store) × (amount : ℕ) × (let ht =
            env.time - s.parameters.unbonding_period in
          (process_withdraw_rate ht balance s ≡ ok s1)
          × (query_get_finished_amount s1 info.sender (ht + 1) ≡ ok amount)
          × (ms
              ≡ bank_send info.sender
                  (record { denom = s.parameters.underlying_coin_denom; amount = amount } ∷ [])
                ∷ []))
  unfolding query_get_finished_amount get_finished_amount
  withdrawal-query q env info s s' ms now c tick e =
      let ht : ℕ = env.time - s.parameters.unbonding_period in
      let (balance, s1, _, processed, pays) = withdraw_once q env info s s' ms e in
      let period = old_enough q env info s s' ms e in
      let agree : (k : ℕ) (h : UnbondHistory)
          → lookup k s1.histories ≡ some h
          → h.released ≡ ltb h.time (ht + 1) =
        λ k h found.
          let (old, done) =
            released_old ht balance now s s1 k h processed (Reach-IsValid s (Clocked-Reach s now c))
              (Clocked-IsTimely s now c) (omega arith) found in
          released_before h ht old done in
      let loops =
        withdrawable_from-agree (λ h. h.released) (λ h. ltb h.time (ht + 1)) s1
          (ascending_batches (s1.wait_lists info.sender)) 0 agree in
      (balance, s1, pays.amount, (processed, sym loops ∙ pays.finished, pays.sent))
