-- ===== src/Hub/Withdraw/Loops.antt =====
-- The two loops of `process_withdraw_rate`: they end, and the second releases a run of batches.
use prism_auto_compounding_c.Prelude.{
  ℕ, zero, suc, ◌+◌, ◌*◌, ◌-◌, ◌/◌, ◌≤◌, ◌<◌, ◌≡◌, refl, ◌≢◌, ◌⊎◌, inl, inr, none, some, arith,
  Option-cases, sym, subst, ◌∙◌,
}
use prism_auto_compounding_c.Prelude.Assoc.{
  lookup, top_key, lookup-top_key, top_key-insert, lookup-insert_self, lookup-insert_ne,
}
use prism_auto_compounding_c.Outcome.{
  ok, panic, out_of_fuel, Outcome-cases, >>=-ne-panic, ok_injective,
}
use prism_auto_compounding_c.Machine.{u64_add}
use native.Mathlib.Decide.{ℕ_discrete}
use prism_auto_compounding_c.Platform.{Platform, decimal_one}
use prism_auto_compounding_c.SignedInt.{SignedInt, from_subtraction}
use prism_auto_compounding_c.SignedInt.Laws.{from_subtraction_lem}
use prism_auto_compounding_c.Protocol.Hub.{UnbondHistory}
use prism_auto_compounding_c.Hub.Store.{Store, read_unbond_history, store_unbond_history}
use prism_auto_compounding_c.Hub.Withdraw.{
  due_history, count_unbonded, actual_unbonded, release_history, release_batches,
}

pub due_history_top :
    (s : Store) (ht i : ℕ) (h : UnbondHistory)
    → due_history s ht i ≡ some h
    → i ≤ top_key s.histories
unfolding due_history read_unbond_history
due_history_top s ht i h e = elim (Option-cases (lookup i s.histories)) [
  | inl missing ↦ ground arith
  | inr (g, found) ↦ lookup-top_key i g s.histories found
]

-- A due history is the stored one.
pub due_history-lookup :
    (s : Store) (ht i : ℕ) (h : UnbondHistory)
    → due_history s ht i ≡ some h
    → lookup i s.histories ≡ some h
unfolding due_history read_unbond_history
due_history-lookup s ht i h e = ground arith

pub u64_fuel : (a b : ℕ) → u64_add a b ≢ panic out_of_fuel
u64_fuel a b = ground arith

module _ ⦃p : Platform⦄ where
  open p use {
    uint_add, uint_mul_decimal, decimal_from_ratio, uint_mul_decimal_lem, uint_add_lem,
    uint_checked_sub_lem, decimal_from_ratio_lem,
  }

  pub count_unbonded_fuel :
      (fuel : ℕ) (s : Store) (ht i total batches : ℕ)
      → 1 ≤ fuel
      → top_key s.histories + 2 ≤ i + fuel
      → count_unbonded fuel s ht i total batches ≢ panic out_of_fuel
  unfolding count_unbonded
  count_unbonded_fuel zero s ht i total batches some_fuel enough = absurd (omega arith)
  count_unbonded_fuel (suc fuel) s ht i total batches some_fuel enough =
      elim (Option-cases (due_history s ht i)) [
        | inl stop ↦ ground arith
        | inr (h, due) ↦
            let unbonded : ℕ = h.amount * h.withdraw_rate / decimal_one in
            let low = due_history_top s ht i h due in
            ground (
              arith,
              uint_mul_decimal_lem h.amount h.withdraw_rate,
              uint_add_lem total unbonded,
              count_unbonded_fuel fuel s ht (i + 1) (total + unbonded) (batches + 1) (omega arith)
                  (omega arith),
            )
      ]

  mul_fuel : (a d : ℕ) → uint_mul_decimal a d ≢ panic out_of_fuel
  mul_fuel a d = ground (arith, uint_mul_decimal_lem a d)

  ratio_fuel : (n d : ℕ) → decimal_from_ratio n d ≢ panic out_of_fuel
  ratio_fuel n d = ground (arith, decimal_from_ratio_lem n d)

  pub add_fuel : (a b : ℕ) → uint_add a b ≢ panic out_of_fuel
  add_fuel a b = ground (arith, uint_add_lem a b)

  pub difference_fuel : (a b : ℕ) → from_subtraction a b ≢ panic out_of_fuel
  difference_fuel a b = ground (arith, from_subtraction_lem a b)

  actual_unbonded_fuel :
      (slashed : SignedInt) (u b : ℕ) → actual_unbonded slashed u b ≢ panic out_of_fuel
  unfolding actual_unbonded
  actual_unbonded_fuel slashed u b = ground (
    arith,
    uint_checked_sub_lem b 1,
    uint_add_lem u (b - 1),
    uint_add_lem b 1,
    from_subtraction_lem u b,
    from_subtraction_lem u (b + 1),
  )

  release_history_fuel :
      (slashed : SignedInt) (total : ℕ) (h : UnbondHistory)
      → release_history slashed total h ≢ panic out_of_fuel
  unfolding release_history
  release_history_fuel slashed total h = >>=-ne-panic _ _ _ (mul_fuel _ _) λ u.
      >>=-ne-panic _ _ _ (ratio_fuel _ _) λ weight. >>=-ne-panic _ _ _ (mul_fuel _ _) λ b.
        >>=-ne-panic _ _ _ (actual_unbonded_fuel slashed u b)
          λ actual. >>=-ne-panic _ _ _ (ratio_fuel _ _) λ rate e. cc

  pub release_batches_fuel :
      (fuel : ℕ) (slashed : SignedInt) (total ht i last : ℕ) (s : Store)
      → 1 ≤ fuel
      → top_key s.histories + 2 ≤ i + fuel
      → release_batches fuel slashed total ht i last s ≢ panic out_of_fuel
  unfolding release_batches store_unbond_history
  release_batches_fuel zero slashed total ht i last s some_fuel enough = absurd (omega arith)
  release_batches_fuel (suc fuel) slashed total ht i last s some_fuel enough =
      elim (Option-cases (due_history s ht i)) [
        | inl stop ↦ ground arith
        | inr (h, due) ↦ elim (Outcome-cases (release_history slashed total h)) [
          | inl (h', done) ↦
              let low = due_history_top s ht i h due in
              ground (
                arith,
                top_key-insert i h' s.histories,
                release_batches_fuel fuel slashed total ht (i + 1) i (store_unbond_history s i h')
                    (omega arith) (omega (arith, top_key-insert i h' s.histories)),
              )
          | inr other ↦ ground (arith, release_history_fuel slashed total h)
        ]
      ]

-- A run of batches released from `s` to `s'`, from `first` up to `last`: each was due and got its
-- rate, the one behind them is not due, and no other history has changed.
pub record Releases ⦃p : Platform⦄ (slashed : SignedInt) (total ht first last : ℕ) (s s' : Store)
    : Type 0 where
  pub reached : first ≤ suc last
  pub only_histories : s' ≡ record s { histories = s'.histories }
  pub kept : (k : ℕ) → (k < first) ⊎ (last < k) → lookup k s'.histories ≡ lookup k s.histories
  pub released :
      (k : ℕ)
      → first ≤ k
      → k ≤ last
      → (h h' : UnbondHistory) × (due_history s ht k ≡ some h)
        × (release_history slashed total h ≡ ok h')
        × (lookup k s'.histories ≡ some h')
  pub stopped : due_history s ht (suc last) ≡ none

module _ ⦃p : Platform⦄ where
  pub due_history-store :
      (s : Store) (ht k i : ℕ) (h : UnbondHistory)
      → k ≢ i
      → due_history (store_unbond_history s i h) ht k ≡ due_history s ht k
  unfolding due_history store_unbond_history read_unbond_history
  due_history-store s ht k i h ne =
      rw (lookup-insert_ne k i h s.histories ne, due_history, read_unbond_history)

  pub none-Releases :
      (slashed : SignedInt) (total ht i last : ℕ) (s : Store)
      → i ≡ suc last
      → due_history s ht i ≡ none
      → Releases slashed total ht i last s s
  none-Releases slashed total ht i last s at stop = record {
    reached = omega arith;
    only_histories = refl;
    kept = λ k _. refl;
    released = λ k low high. absurd (omega arith);
    stopped = rw (← at) stop;
  }

  cons-Releases :
      (slashed : SignedInt) (total ht i last : ℕ) (s s' : Store) (h h' : UnbondHistory)
      → due_history s ht i ≡ some h
      → release_history slashed total h ≡ ok h'
      → Releases slashed total ht (i + 1) last (store_unbond_history s i h') s'
      → Releases slashed total ht i last s s'
  unfolding store_unbond_history
  cons-Releases slashed total ht i last s s' h h' due done r =
      let reached = r.reached in
      record {
        reached = omega arith;
        only_histories = r.only_histories;
        kept = λ k out.
            r.kept k (ground (arith, out))
            ∙ lookup-insert_ne k i h' s.histories (λ e. ground (arith, out));
        released = λ k low high. elim (ℕ_discrete k i) [
          | yes here ↦ (
            h,
            h',
            rw here due,
            done,
            rw here (r.kept i (inl (omega arith)) ∙ lookup-insert_self i h' s.histories),
          )
          | no there ↦
              let (g, g', due', done', found) = r.released k (omega arith) high in
              (g, g', sym (due_history-store s ht k i h' there) ∙ due', done', found)
        ];
        stopped = sym (due_history-store s ht (suc last) i h' (λ e. omega arith)) ∙ r.stopped;
      }

  pub release_batches_run :
      (fuel : ℕ) (slashed : SignedInt) (total ht i last : ℕ) (s s' : Store) (last' : ℕ)
      → i ≡ suc last
      → release_batches fuel slashed total ht i last s ≡ ok (last', s')
      → Releases slashed total ht i last' s s'
  unfolding release_batches
  release_batches_run zero slashed total ht i last s s' last' at e = cc
  release_batches_run (suc fuel) slashed total ht i last s s' last' at e =
      elim (Option-cases (due_history s ht i)) [
        | inl stop ↦
            subst (λ (r : ℕ × Store). Releases slashed total ht i r.0 s r.1)
              (ok_injective (rw (stop, release_batches) at e))
              (none-Releases slashed total ht i last s at stop)
        | inr (h, due) ↦ elim (Outcome-cases (release_history slashed total h)) [
          | inl (h', done) ↦ cons-Releases slashed total ht i last' s s' h h' due done (
              release_batches_run fuel slashed total ht (i + 1) i (store_unbond_history s i h') s'
                last' (omega arith) (ground arith))
          | inr other ↦ absurd (ground arith)
        ]
      ]
