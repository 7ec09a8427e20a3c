-- ===== src/Hub/Rates/Bounds.antt =====
-- How exact the exchange rate and the division are.
use native.Mathlib.Nat.{div-div-eq-div-mul, mul-div-mul_right}
use prism_auto_compounding_c.Prelude.{ℕ, ◌+◌, ◌*◌, ◌/◌, ◌≤◌, ◌<◌, ◌≡◌, ◌⊎◌, ap, ◌∙◌, arith}
use prism_auto_compounding_c.Prelude.Division.{div_antitone, div_mul_le, lt_div_mul}
use prism_auto_compounding_c.Outcome.{ok}
use prism_auto_compounding_c.Platform.{Platform, decimal_one, uint128_max}
use prism_auto_compounding_c.Protocol.Hub.{State}
use prism_auto_compounding_c.Hub.Rates.{decimal_fractional, update_exchange_rate, decimal_division}

module _ ⦃p : Platform⦄ where
  open p use {uint_add_lem, uint_mul_decimal_lem, decimal_from_ratio_lem}

  -- With a bond and a supply, and a rate that fits, the update succeeds, and the new rate is the
  -- bond over the supply rounded down to 18 digits: the supply at that rate is at most the bond,
  -- and less than one rounding step per token below it. All other fields stay.
  pub update_exchange_rate_bounds :
      (st : State) (issued requested : ℕ)
      → 0 < st.total_bond_amount
      → 0 < issued + requested
      → issued + requested ≤ uint128_max
      → st.total_bond_amount * decimal_one / (issued + requested) ≤ uint128_max
      → (rate : ℕ) × (update_exchange_rate st issued requested
          ≡ ok (record st { exchange_rate = rate }))
        × (rate * (issued + requested) ≤ st.total_bond_amount * decimal_one)
        × (st.total_bond_amount * decimal_one < rate * (issued + requested) + (issued + requested))
  unfolding update_exchange_rate
  update_exchange_rate_bounds st issued requested bonded supplied fits rate_fits =
      let bond = st.total_bond_amount in
      (
        bond * decimal_one / (issued + requested),
        ground (
          arith,
          uint_add_lem issued requested,
          decimal_from_ratio_lem bond (issued + requested),
        ),
        div_mul_le (bond * decimal_one) (issued + requested),
        lt_div_mul (bond * decimal_one) (issued + requested) supplied,
      )

  -- Where nothing is bonded or nothing is issued, the rate falls back to 1.
  pub update_exchange_rate_empty :
      (st : State) (issued requested : ℕ)
      → issued + requested ≤ uint128_max
      → (st.total_bond_amount ≡ 0) ⊎ (issued + requested ≡ 0)
      → update_exchange_rate st issued requested ≡ ok (record st { exchange_rate = decimal_one })
  unfolding update_exchange_rate
  update_exchange_rate_empty st issued requested fits empty =
      ground (arith, empty, uint_add_lem issued requested)

  regroup : (a : ℕ) → a * decimal_one ≡ a * decimal_fractional * decimal_fractional
  regroup a = omega arith

  scaled_quotient :
      (a d : ℕ)
      → 0 < d
      → decimal_fractional * (a * decimal_one / d) / decimal_one ≡ a * decimal_fractional / d
  scaled_quotient a d pos =
      let cut : decimal_fractional * (a * decimal_one / d) / decimal_one
          ≡ a * decimal_one / d / decimal_fractional =
        omega arith in
      cut
      ∙ div-div-eq-div-mul (a * decimal_one) d decimal_fractional
      ∙ ap (λ (n : ℕ). n / (d * decimal_fractional)) (regroup a)
      ∙ mul-div-mul_right (a * decimal_fractional) d (omega arith)

  -- Where the rate keeps a digit above the ninth and the result fits, the division succeeds: it
  -- divides by the rate cut to nine digits, so it is at least the exact quotient rounded down.
  pub decimal_division_lem :
      (a b : ℕ)
      → decimal_fractional ≤ b
      → b ≤ uint128_max
      → a * decimal_one / (b / decimal_fractional) ≤ uint128_max
      → (decimal_division a b ≡ ok (a * decimal_fractional / (b / decimal_fractional)))
        × (a * decimal_one / b ≤ a * decimal_fractional / (b / decimal_fractional))
  unfolding decimal_division
  decimal_division_lem a b low high fits =
      let d : ℕ = b / decimal_fractional in
      let pos : 0 < d = omega arith in
      let cut : decimal_fractional * b / decimal_one ≡ d = omega arith in
      let exact = scaled_quotient a d pos in
      let smaller : a * decimal_one / b ≤ a * decimal_one / (d * decimal_fractional) =
        div_antitone (a * decimal_one) b (d * decimal_fractional) (omega arith) (omega arith) in
      let same : a * decimal_one / (d * decimal_fractional) ≡ a * decimal_fractional / d =
        ap (λ (n : ℕ). n / (d * decimal_fractional)) (regroup a)
        ∙ mul-div-mul_right (a * decimal_fractional) d (omega arith) in
      let less : decimal_fractional * (a * decimal_one / d) / decimal_one ≤ uint128_max =
        omega arith in
      (
        ground (
          arith,
          uint_mul_decimal_lem decimal_fractional b,
          decimal_from_ratio_lem a d,
          uint_mul_decimal_lem decimal_fractional (a * decimal_one / d),
        ),
        omega arith,
      )
