-- ===== src/Hub/Withdraw/Process.antt =====
-- `process_withdraw_rate` as a whole: it ends, both loops walk the same batches, and nothing but
-- their histories and two fields of the state changes.
use prism_auto_compounding_c.Prelude.{
  ℕ, zero, suc, ◌+◌, ◌-◌, ◌≡◌, refl, ◌≢◌, inl, inr, none, arith, ap, subst,
}
use prism_auto_compounding_c.Outcome.{
  ok, panic, out_of_fuel, Outcome-cases, >>=-ne-panic, ok_injective,
}
use native.Mathlib.Nat.{zero-add}
use native.Mathlib.Decide.{dec_lt}
use prism_auto_compounding_c.Platform.{Platform}
use prism_auto_compounding_c.SignedInt.{SignedInt}
use prism_auto_compounding_c.SignedInt.Laws.{from_subtraction_lem}
use prism_auto_compounding_c.Hub.Store.{Store}
use prism_auto_compounding_c.Hub.Withdraw.{
  due_history, rounds, count_unbonded, release_counted, process_withdraw_rate,
}
use prism_auto_compounding_c.Hub.Withdraw.Loops.{
  add_fuel, difference_fuel, u64_fuel, count_unbonded_fuel, release_batches_fuel, Releases,
  none-Releases, release_batches_run,
}
use prism_auto_compounding_c.Hub.Withdraw.Counting.{
  expected_run, distance, difference, Counts, count_unbonded_run,
}

module _ ⦃p : Platform⦄ where
  open p use {uint_add, uint_mul_decimal_lem, uint_add_lem}

  release_counted_fuel :
      (ht actual total batches : ℕ) (s : Store)
      → release_counted ht actual total batches s ≢ panic out_of_fuel
  unfolding release_counted
  release_counted_fuel ht actual total batches s = ground (
    arith,
    from_subtraction_lem total actual,
    release_batches_fuel (rounds s) (difference total actual) total ht
        (s.state.last_processed_batch + 1) s.state.last_processed_batch s,
  )

  -- The release never stops for want of rounds: both loops end by their own tests, whatever the
  -- store, the time and the balance are.
  pub process_withdraw_rate_ends :
      (ht balance : ℕ) (s : Store) → process_withdraw_rate ht balance s ≢ panic out_of_fuel
  unfolding process_withdraw_rate
  process_withdraw_rate_ends ht balance s =
      >>=-ne-panic _ _ _ (difference_fuel balance s.state.prev_hub_balance) λ change.
        >>=-ne-panic _ _ _ (add_fuel s.state.actual_unbonded_amount change.magnitude) λ actual.
          >>=-ne-panic _ _ _ (u64_fuel s.state.last_processed_batch 1) λ first.
            >>=-ne-panic _ _ _
              (count_unbonded_fuel (rounds s) s ht first 0 0 (omega arith) (omega arith))
              λ counted.
                >>=-ne-panic _ _ _ (release_counted_fuel ht actual counted.0 counted.1 s)
                  λ released e. cc

  release_counted_run :
      (ht actual total batches last : ℕ) (s s' : Store)
      → Counts s ht (s.state.last_processed_batch + 1) batches
      → release_counted ht actual total batches s ≡ ok (last, s')
      → Releases (difference total actual) total ht (s.state.last_processed_batch + 1) last s s'
  unfolding release_counted
  release_counted_run ht actual total zero last s s' c e =
      subst
        (λ (r : ℕ × Store).
          Releases (difference total actual) total ht (s.state.last_processed_batch + 1) r.0 s r.1)
        (ok_injective e)
        (none-Releases (difference total actual) total ht (s.state.last_processed_batch + 1)
          s.state.last_processed_batch s (omega arith) (at_first c.stopped))
    where
      at_first :
          due_history s ht (s.state.last_processed_batch + 1 + 0) ≡ none
          → due_history s ht (s.state.last_processed_batch + 1) ≡ none
      at_first h =
          let eq : s.state.last_processed_batch + 1 + 0 ≡ s.state.last_processed_batch + 1 =
            omega arith in
          rw eq at h
  release_counted_run ht actual total (suc n) last s s' c e =
      release_batches_run (rounds s) (difference total actual) total ht
        (s.state.last_processed_batch + 1) s.state.last_processed_batch s s' last (omega arith)
        (ground (arith, from_subtraction_lem total actual))

  -- Both loops walk the same batches.
  pub same_run :
      (s s' : Store) (slashed : SignedInt) (total ht first n last : ℕ)
      → Counts s ht first n
      → Releases slashed total ht first last s s'
      → suc last ≡ first + n
  same_run s s' slashed total ht first n last c r = elim (dec_lt (suc last) (first + n)) [
    | yes short ↦ absurd (c.due (suc last) r.reached (short) r.stopped)
    | no not_short ↦ elim (dec_lt (first + n) (suc last)) [
      | yes long ↦
          let (h, h', due, _, _) = r.released (first + n) (omega arith) (omega arith) in
          let stopped = c.stopped in absurd (cc)
      | no not_long ↦ omega arith
    ]
  ]

-- What `process_withdraw_rate` does: the due batches behind the last processed one are released,
-- where the difference is that of what they were expected to bring back and what the balance
-- says came back. Of the rest of the store only the two fields of the state change.
pub record Processed ⦃p : Platform⦄ (ht balance : ℕ) (s s' : Store) : Type 0 where
  pub run :
      let first = s.state.last_processed_batch + 1 in
      let last = s'.state.last_processed_batch in
      let total = expected_run s first (suc last - first) in
      let actual = s.state.actual_unbonded_amount + distance balance s.state.prev_hub_balance in
      Releases
        (difference total actual)
        total
        ht
        first
        last
        s
        (record s { histories = s'.histories })
  pub rest : s' ≡ record s {
    histories = s'.histories;
    state = record (s.state) {
      last_processed_batch = s'.state.last_processed_batch;
      actual_unbonded_amount = 0;
    };
  }

module _ ⦃p : Platform⦄ where
  open p use {uint_add_lem}

  assemble :
      (ht balance : ℕ) (s s2 : Store) (total actual last n : ℕ)
      → actual ≡ s.state.actual_unbonded_amount + distance balance s.state.prev_hub_balance
      → total ≡ expected_run s (s.state.last_processed_batch + 1) n
      → Counts s ht (s.state.last_processed_batch + 1) n
      → Releases (difference total actual) total ht (s.state.last_processed_batch + 1) last s s2
      → Processed ht balance s (record s2 {
        state = record (s.state) { last_processed_batch = last; actual_unbonded_amount = 0 };
      })
  assemble ht balance s s2 total actual last n actual_eq total_eq c r =
      let run_length : suc last - (s.state.last_processed_batch + 1) ≡ n = omega (
        arith,
        same_run s s2 (difference total actual) total ht (s.state.last_processed_batch + 1) n last c
            r,
      ) in
      record {
        run =
            rw (run_length, ← total_eq, ← actual_eq)
              (subst
                (λ t.
                  Releases (difference total actual) total ht (s.state.last_processed_batch + 1)
                    last s t)
                r.only_histories r);
        rest =
            ap
              (λ (t : Store). record t {
                state = record (s.state) {
                  last_processed_batch = last;
                  actual_unbonded_amount = 0;
                };
              })
              r.only_histories;
      }

  -- A release that returns has released exactly the due batches behind the last processed one,
  -- each at its rate, and has changed nothing but their histories, the last processed batch and
  -- the unbonded amount, which is 0 after it.
  pub process_withdraw_rate_lem :
      (ht balance : ℕ) (s s' : Store)
      → process_withdraw_rate ht balance s ≡ ok s'
      → Processed ht balance s s'
  unfolding process_withdraw_rate
  process_withdraw_rate_lem ht balance s s' e =
      let actual : ℕ = s.state.actual_unbonded_amount + distance balance s.state.prev_hub_balance in
      let first : ℕ = s.state.last_processed_batch + 1 in
      elim (Outcome-cases (count_unbonded (rounds s) s ht first 0 0)) [
        | inl ((total, batches), counted) ↦
            elim (Outcome-cases (release_counted ht actual total batches s)) [
              | inl ((last, s2), released) ↦
                  let (n, batches_eq, total_eq, c) =
                    count_unbonded_run (rounds s) s ht first 0 0 total batches counted in
                  let c' : Counts s ht first batches = rw batches_eq (rw zero-add c) in
                  subst (Processed ht balance s)
                    (ground (
                      arith,
                      from_subtraction_lem balance s.state.prev_hub_balance,
                      uint_add_lem s.state.actual_unbonded_amount
                          (distance balance s.state.prev_hub_balance),
                    ))
                    (assemble ht balance s s2 total actual last n refl (omega arith) c
                      (release_counted_run ht actual total batches last s s2 c' released))
              | inr other ↦ absurd (
                  ground (
                    arith,
                    from_subtraction_lem balance s.state.prev_hub_balance,
                    uint_add_lem s.state.actual_unbonded_amount
                        (distance balance s.state.prev_hub_balance),
                  ))
            ]
        | inr other ↦ absurd (
            ground (
              arith,
              from_subtraction_lem balance s.state.prev_hub_balance,
              uint_add_lem s.state.actual_unbonded_amount
                  (distance balance s.state.prev_hub_balance),
            ))
      ]
