-- ===== src/Hub/Solvent/Owed.antt =====
-- `get_finished_amount` adds up what the user is owed.
use mathlib.Core.Option
use native.Mathlib.Decide.{dec_lt}
use prism_auto_compounding_c.Prelude.{
  ℕ, zero, suc, String, ◌+◌, ◌≤◌, ◌<◌, ◌≡◌, ◌≢◌, refl, inl, inr, some, none, List, [], ◌∷◌, arith,
  sum_by, if◌then◌else◌, Option-cases, ◌∙◌,
}
use prism_auto_compounding_c.Prelude.Assoc.{lookup, lookup-below, Ascending}
use prism_auto_compounding_c.Prelude.Runs.{run_sum, run_sum-same, run_sum-grows}
use prism_auto_compounding_c.Prelude.Members.{sum_by-perm}
use prism_auto_compounding_c.Outcome.{ok, Outcome-cases}
use prism_auto_compounding_c.Platform.{Platform, uint128_max}
use prism_auto_compounding_c.Hub.Store.{
  Store, read_unbond_history, is_released, add_withdrawable, withdrawable_from, get_finished_amount,
}
use prism_auto_compounding_c.Hub.Claims.Payable.{worth_at}
use prism_auto_compounding_c.Hub.Invariant.{IsValid}
use prism_auto_compounding_c.Hub.Solvent.{owed}

-- What one entry of a list adds to the sum.
abbrev entry_worth : Store → ℕ × ℕ → ℕ
entry_worth s e = if is_released s e.0 then worth_at (lookup e.0 s.histories) e.1 else 0

-- What a list is worth, batch by batch.
abbrev list_claim : Store → List (ℕ × ℕ) → ℕ → ℕ
list_claim s m k = worth_at (lookup k s.histories) (Option.get_or (lookup k m) 0)

entry_worth-done :
    (s : Store) (k v : ℕ)
    → IsValid s
    → k ≤ s.state.last_processed_batch
    → entry_worth s (k, v) ≡ worth_at (lookup k s.histories) v
unfolding read_unbond_history
entry_worth-done s k v valid le = elim (Option-cases (lookup k s.histories)) [
  | inl missing ↦ ground arith
  | inr (h, found) ↦ let released = valid.done k h found le in ground arith
]

entry_worth-pending :
    (s : Store) (k v : ℕ) → IsValid s → s.state.last_processed_batch < k → entry_worth s (k, v) ≡ 0
unfolding read_unbond_history
entry_worth-pending s k v valid lt = elim (Option-cases (lookup k s.histories)) [
  | inl missing ↦ ground arith
  | inr (h, found) ↦ let unreleased = valid.pending k h found lt in ground arith
]

list_worth_zero : (s : Store) (first n : ℕ) → run_sum (list_claim s []) first n ≡ 0
list_worth_zero s first zero = refl
list_worth_zero s first (suc n) =
    let ih = list_worth_zero s (suc first) n in
    elim (Option-cases (lookup first s.histories)) [
      | inl missing ↦ rw missing (omega arith)
      | inr (h, found) ↦ rw found (omega arith)
    ]

list_claim-head :
    (s : Store) (j w : ℕ) (m : List (ℕ × ℕ))
    → lookup j m ≡ none
    → list_claim s ((j, w) ∷ m) j ≡ list_claim s m j + worth_at (lookup j s.histories) w
list_claim-head s j w m absent = elim (Option-cases (lookup j s.histories)) [
  | inl missing ↦ ground arith
  | inr (h, found) ↦ ground arith
]

list_claim-tail :
    (s : Store) (j w k : ℕ) (m : List (ℕ × ℕ))
    → k ≢ j
    → list_claim s ((j, w) ∷ m) k ≡ list_claim s m k
list_claim-tail s j w k m ne = ground arith

-- The sum over the entries is the sum over the released batches.
list_worth :
    (s : Store) (m : List (ℕ × ℕ))
    → IsValid s
    → Ascending m
    → sum_by (entry_worth s) m ≡ run_sum (list_claim s m) 0 (suc s.state.last_processed_batch)
list_worth s [] valid a =
    let zero_sum = list_worth_zero s 0 (suc s.state.last_processed_batch) in omega arith
list_worth s ((j, w) ∷ m) valid a =
    let n : ℕ = suc s.state.last_processed_batch in
    let ih = list_worth s m valid (a.1) in
    elim (dec_lt s.state.last_processed_batch j) [
      | yes later ↦
          let none_here = entry_worth-pending s j w valid later in
          let same =
            run_sum-same (list_claim s m) (list_claim s ((j, w) ∷ m)) 0 n
              (λ k low high. list_claim-tail s j w k m (λ e. omega arith)) in
          omega arith
      | no done ↦
          let here = entry_worth-done s j w valid (omega arith) in
          let grown =
            run_sum-grows (list_claim s m) (list_claim s ((j, w) ∷ m)) j
              (worth_at (lookup j s.histories) w) 0 n (λ k ne. list_claim-tail s j w k m ne)
              (list_claim-head s j w m (lookup-below j m (a.0))) (omega arith) (omega arith) in
          omega arith
    ]

module _ ⦃p : Platform⦄ where
  open p use {
    uint_add, uint_mul_decimal, uint_add_lem, uint_mul_decimal_lem, ascending_batches-perm,
  }

  add_withdrawable-worth :
      (s : Store) (k v total total' : ℕ)
      → add_withdrawable (λ h. h.released) s k v total ≡ ok total'
      → total' ≡ total + entry_worth s (k, v)
  unfolding add_withdrawable read_unbond_history
  add_withdrawable-worth s k v total total' e = elim (Option-cases (lookup k s.histories)) [
    | inl missing ↦ ground arith
    | inr (h, found) ↦
        let worth : ℕ = worth_at (some h) v in
        ground (arith, uint_mul_decimal_lem v h.withdraw_rate, uint_add_lem total worth)
  ]

  add_withdrawable-fits :
      (s : Store) (k v total : ℕ)
      → total + entry_worth s (k, v) ≤ uint128_max
      → add_withdrawable (λ h. h.released) s k v total ≡ ok (total + entry_worth s (k, v))
  unfolding add_withdrawable read_unbond_history
  add_withdrawable-fits s k v total fits = elim (Option-cases (lookup k s.histories)) [
    | inl missing ↦ ground arith
    | inr (h, found) ↦
        let worth : ℕ = worth_at (some h) v in
        ground (arith, uint_mul_decimal_lem v h.withdraw_rate, uint_add_lem total worth)
  ]

  withdrawable_from-worth :
      (s : Store) (l : List (ℕ × ℕ)) (total total' : ℕ)
      → withdrawable_from (λ h. h.released) s l total ≡ ok total'
      → total' ≡ total + sum_by (entry_worth s) l
  unfolding withdrawable_from
  withdrawable_from-worth s [] total total' e = ground arith
  withdrawable_from-worth s ((k, v) ∷ l) total total' e =
      elim (Outcome-cases (add_withdrawable (λ h. h.released) s k v total)) [
        | inl (more, added) ↦
            let here = add_withdrawable-worth s k v total more added in
            let ih = withdrawable_from-worth s l more total' (ground arith) in omega arith
        | inr other ↦ absurd (ground arith)
      ]

  withdrawable_from-fits :
      (s : Store) (l : List (ℕ × ℕ)) (total : ℕ)
      → total + sum_by (entry_worth s) l ≤ uint128_max
      → withdrawable_from (λ h. h.released) s l total ≡ ok (total + sum_by (entry_worth s) l)
  unfolding withdrawable_from
  withdrawable_from-fits s [] total fits = ground arith
  withdrawable_from-fits s ((k, v) ∷ l) total fits =
      let here = add_withdrawable-fits s k v total (omega arith) in
      let ih = withdrawable_from-fits s l (total + entry_worth s (k, v)) (omega arith) in
      ground (arith, here, ih)

  owed-entries :
      (s : Store) (user : String)
      → IsValid s
      → Ascending (s.wait_lists user)
      → sum_by (entry_worth s) (p.key_order.ascending_batches (s.wait_lists user)) ≡ owed s user
  owed-entries s user valid a =
      sum_by-perm (entry_worth s) (ascending_batches-perm (s.wait_lists user))
      ∙ list_worth s (s.wait_lists user) valid a

  -- The amount that a user can withdraw is what he is owed, and the sum is reached where it fits.
  pub get_finished_amount-owed :
      (s : Store) (user : String) (amount : ℕ)
      → IsValid s
      → Ascending (s.wait_lists user)
      → get_finished_amount s user ≡ ok amount
      → amount ≡ owed s user
  unfolding get_finished_amount
  get_finished_amount-owed s user amount valid a e =
      let sum = owed-entries s user valid a in
      let worth = withdrawable_from-worth s _ 0 amount e in omega arith

  pub get_finished_amount-fits :
      (s : Store) (user : String)
      → IsValid s
      → Ascending (s.wait_lists user)
      → owed s user ≤ uint128_max
      → get_finished_amount s user ≡ ok (owed s user)
  unfolding get_finished_amount
  get_finished_amount-fits s user valid a fits =
      let sum = owed-entries s user valid a in
      let fits' : 0 + sum_by (entry_worth s) (p.key_order.ascending_batches (s.wait_lists user))
          ≤ uint128_max =
        omega arith in
      let run = withdrawable_from-fits s _ 0 fits' in
      let at : 0 + sum_by (entry_worth s) (p.key_order.ascending_batches (s.wait_lists user))
          ≡ owed s user =
        omega arith in
      rw at at run
