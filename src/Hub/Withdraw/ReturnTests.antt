-- ===== src/Hub/Withdraw/ReturnTests.antt =====
-- A batch that comes back in full, and two batches that come back with one coin too much.
use native.Mathlib.Decide.{ℕ_discrete}
use prism_auto_compounding_c.Prelude.{ℕ, ◌≡◌, ◌≢◌, ◌≤◌, ◌<◌, refl, some, none, [], ◌∷◌, arith}
use prism_auto_compounding_c.Prelude.Assoc.{lookup}
use prism_auto_compounding_c.Outcome.{ok}
use prism_auto_compounding_c.Platform.Reference.{reference}
use prism_auto_compounding_c.Protocol.Hub.{UnbondHistory}
use prism_auto_compounding_c.Hub.Store.{Store, read_unbond_history}
use prism_auto_compounding_c.Hub.Sample.{store, first_batch}
use prism_auto_compounding_c.Hub.Withdraw.{due_history, process_withdraw_rate}
use prism_auto_compounding_c.Hub.Withdraw.Counting.{Counts}
use prism_auto_compounding_c.Hub.Withdraw.Returns.{
  AllDue, full_return, process_withdraw_rate_returns,
}
use prism_auto_compounding_c.Hub.Withdraw.Surplus.{process_withdraw_rate_surplus}

one_due : due_history store 30 1 ≡ some first_batch
unfolding due_history read_unbond_history
one_due = refl

none_behind : due_history store 30 2 ≡ none
unfolding due_history read_unbond_history
none_behind = refl

store-AllDue : AllDue store 30 1 1
store-AllDue = record {
  due = λ k low high.
      let only : k ≡ 1 = omega arith in (first_batch, rw only one_due, omega arith, omega arith);
  stopped = none_behind;
}

process_withdraw_rate_returns_example :
    (s' : Store) × (process_withdraw_rate 30 100 store ≡ ok s')
    × (s'.state.last_processed_batch ≡ 1)
    × ((k : ℕ) (h : UnbondHistory)
        → 1 ≤ k
        → k < 2
        → lookup k store.histories ≡ some h
        → lookup k s'.histories ≡ some (full_return h))
process_withdraw_rate_returns_example =
    process_withdraw_rate_returns 30 100 store 1 store-AllDue refl (omega arith) (omega arith)

abbrev half : ℕ → UnbondHistory
half id = record first_batch { batch_id = id; amount = 50 }

abbrev two_store : Store
two_store = record store { histories = (1, half 1) ∷ (2, half 2) ∷ [] }

first_due : due_history two_store 30 1 ≢ none
unfolding due_history read_unbond_history
first_due e = cc

second_due : due_history two_store 30 2 ≢ none
unfolding due_history read_unbond_history
second_due e = cc

none_third : due_history two_store 30 3 ≡ none
unfolding due_history read_unbond_history
none_third = refl

two_store-Counts : Counts two_store 30 1 2
two_store-Counts = record {
  due = λ k low high. elim (ℕ_discrete k 1) [
    | yes here ↦ rw here first_due
    | no there ↦ let second : k ≡ 2 = omega arith in rw second second_due
  ];
  stopped = none_third;
}

process_withdraw_rate_surplus_example : process_withdraw_rate 30 101 two_store ≡ ok store → ⊥
process_withdraw_rate_surplus_example =
    process_withdraw_rate_surplus 30 101 two_store 2 1 (half 1) two_store-Counts (omega arith)
      (omega arith) (omega arith) refl refl store
