-- ===== src/Hub/Decimals.antt =====
-- contracts/prism_hub/src/math.rs, the three functions that go through `Decimal256`.
mod Tests
use prism_auto_compounding_c.Prelude.{ℕ, ◌+◌, ◌-◌, ◌*◌, ◌/◌, ◌≡◌, leb, if◌then◌else◌}
use prism_auto_compounding_c.Outcome.{Outcome, ok, panic, arithmetic, ◌>>=◌}
use prism_auto_compounding_c.Platform.{decimal_one, uint128_max}

abbrev pub uint256_max : ℕ
uint256_max = 115792089237316195423570985008687907853269984665640564039457584007913129639935

-- The bignumber package's `Decimal256`, which is its atomics below 2^256, as these functions use
-- it.
pub record Wide : Type 0 where
  -- `Decimal256::from(Decimal)` and `Decimal::from(Decimal256)`
  pub from_decimal : ℕ → ℕ
  pub into_decimal : ℕ → Outcome ℕ
  pub wide_add : ℕ → ℕ → Outcome ℕ
  pub wide_sub : ℕ → ℕ → Outcome ℕ
  pub wide_mul : ℕ → ℕ → Outcome ℕ
  pub from_decimal_lem : (d : ℕ) → from_decimal d ≡ d
  pub into_decimal_lem :
      (n : ℕ) → into_decimal n ≡ (if leb n uint128_max then ok n else panic arithmetic)
  pub wide_add_lem :
      (a b : ℕ) → wide_add a b ≡ (if leb (a + b) uint256_max then ok (a + b) else panic arithmetic)
  pub wide_sub_lem : (a b : ℕ) → wide_sub a b ≡ (if leb b a then ok (a - b) else panic arithmetic)
  pub wide_mul_lem :
      (a b : ℕ)
      → wide_mul a b
        ≡ (if leb (a * b) uint256_max then ok (a * b / decimal_one) else panic arithmetic)

module _ ⦃w : Wide⦄ where
  open w use {from_decimal, into_decimal, wide_add, wide_sub, wide_mul}

  unfoldable pub decimal_multiplication_in_256 : ℕ → ℕ → Outcome ℕ
  decimal_multiplication_in_256 a b = do
    c_u256 ← wide_mul (from_decimal b) (from_decimal a)
    into_decimal c_u256

  unfoldable pub decimal_summation_in_256 : ℕ → ℕ → Outcome ℕ
  decimal_summation_in_256 a b = do
    c_u256 ← wide_add (from_decimal b) (from_decimal a)
    into_decimal c_u256

  unfoldable pub decimal_subtraction_in_256 : ℕ → ℕ → Outcome ℕ
  decimal_subtraction_in_256 a b = do
    c_u256 ← wide_sub (from_decimal a) (from_decimal b)
    into_decimal c_u256
