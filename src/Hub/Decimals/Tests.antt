-- ===== src/Hub/Decimals/Tests.antt =====
-- The cases of the source's tests.
use prism_auto_compounding_c.Prelude.{ℕ, ◌+◌, ◌-◌, ◌*◌, ◌/◌, ◌≡◌, refl, leb, if◌then◌else◌}
use prism_auto_compounding_c.Outcome.{Outcome, ok, panic, arithmetic}
use prism_auto_compounding_c.Platform.{decimal_one, uint128_max}
use prism_auto_compounding_c.Platform.Reference.{reference}
use prism_auto_compounding_c.Hub.Decimals.{
  Wide, uint256_max, decimal_multiplication_in_256, decimal_summation_in_256,
  decimal_subtraction_in_256,
}

within : ℕ → ℕ → ℕ → Outcome ℕ
within limit n r = if leb n limit then ok r else panic arithmetic

instance wide : Wide
unfolding within
wide = record {
  from_decimal = λ d. d;
  into_decimal = λ n. within uint128_max n n;
  wide_add = λ a b. within uint256_max (a + b) (a + b);
  wide_sub = λ a b. within a b (a - b);
  wide_mul = λ a b. within uint256_max (a * b) (a * b / decimal_one);
  from_decimal_lem = λ d. refl;
  into_decimal_lem = λ n. refl;
  wide_add_lem = λ a b. refl;
  wide_sub_lem = λ a b. refl;
  wide_mul_lem = λ a b. refl;
}

-- 100 * 0.1111111 = 11.11111
multiplication_example :
    decimal_multiplication_in_256 100000000000000000000 111111100000000000 ≡ ok 11111110000000000000
unfolding decimal_multiplication_in_256 wide within
multiplication_example = refl

-- 0.4 + 0.2 = 0.6 and 0.4 - 0.2 = 0.2
summation_example :
    decimal_summation_in_256 400000000000000000 200000000000000000 ≡ ok 600000000000000000
unfolding decimal_summation_in_256 wide within
summation_example = refl

subtraction_example :
    decimal_subtraction_in_256 400000000000000000 200000000000000000 ≡ ok 200000000000000000
unfolding decimal_subtraction_in_256 wide within
subtraction_example = refl
