-- ===== src/Hub/Unbond/Worth.antt =====
-- The rate a request is priced at, and what the batch it joins is worth when it closes.
use native.Mathlib.Nat.{div-le_of_le-mul, mul-le-mul_right}
use prism_auto_compounding_c.Prelude.{
  ℕ, String, ◌+◌, ◌*◌, ◌/◌, ◌≤◌, inl, inr, List, [], ◌∷◌, arith, str_eq, Bool-cases,
}
use prism_auto_compounding_c.Prelude.Division.{div_mul_le}
use prism_auto_compounding_c.Platform.{decimal_one}
use prism_auto_compounding_c.Chain.{Delegation}
use prism_auto_compounding_c.Hub.Store.{Store}
use prism_auto_compounding_c.Hub.Slashing.Laws.{bonded_in}
use prism_auto_compounding_c.Hub.Pick.Total.{delegated}

-- The rate for a bond and the claims on it, what a request is worth at it.
abbrev pub rate_for : Store → ℕ → ℕ
rate_for s supply =
    s.state.total_bond_amount * decimal_one / (supply + s.current_batch.requested_with_fee)

abbrev pub closing_worth : Store → ℕ → ℕ → ℕ
closing_worth s supply amount =
    (s.current_batch.requested_with_fee + amount) * rate_for s supply / decimal_one

pub bonded_in-le : (denom : String) (ds : List Delegation) → bonded_in denom ds ≤ delegated ds
bonded_in-le denom [] = omega arith
bonded_in-le denom (d ∷ ds) =
    let ih = bonded_in-le denom ds in
    elim (Bool-cases (str_eq d.amount.denom denom)) [
      | inl here ↦ rw here (omega arith)
      | inr other ↦ rw other (omega arith)
    ]

-- What a part of the claims is worth at the rate is at most the bond.
pub closing_worth-le :
    (s : Store) (supply amount : ℕ)
    → amount ≤ supply
    → closing_worth s supply amount ≤ s.state.total_bond_amount
closing_worth-le s supply amount le =
    let claims : ℕ = supply + s.current_batch.requested_with_fee in
    let part : ℕ = s.current_batch.requested_with_fee + amount in
    let whole = div_mul_le (s.state.total_bond_amount * decimal_one) claims in
    let scaled : part * rate_for s supply ≤ claims * rate_for s supply =
      mul-le-mul_right (rate_for s supply) (omega arith) in
    div-le_of_le-mul decimal_one (omega arith)
