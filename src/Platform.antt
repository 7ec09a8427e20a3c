-- ===== src/Platform.antt =====
-- What the contracts call and this repository does not hold: cosmwasm_std's numbers and address
-- functions, cw_controllers' admin check, the rand crate, and the order in which a store's
-- entries come. Each is a record of operations with the laws that its documentation gives.
pub mod Reference
use prism_auto_compounding_c.Prelude.{
  ℕ, String, ◌+◌, ◌-◌, ◌*◌, ◌/◌, ◌<◌, ◌≡◌, Bool, false, Option, none, some, List, leb, ◌==◌,
  if◌then◌else◌, str_eq,
}
use mathlib.Core.List.{Perm}
use prism_auto_compounding_c.Outcome.{
  Outcome, ok, err, panic, overflow, arithmetic, divide_by_zero, empty_range,
}

-- `Decimal` holds 18 fractional digits: 1.0 is 10^18 atomics.
abbrev pub decimal_one : ℕ
decimal_one = 1_000_000_000_000_000_000

abbrev pub uint128_max : ℕ
uint128_max = 340282366920938463463374607431768211455

-- A `Uint128` is its value and a `Decimal` its atomics, both below 2^128.
pub record Numbers : Type 0 where
  -- `Uint128 + Uint128`
  pub uint_add : ℕ → ℕ → Outcome ℕ
  -- `Uint128::checked_sub`
  pub uint_checked_sub : ℕ → ℕ → Outcome ℕ
  -- `Uint128 * Decimal` and `Decimal * Uint128`
  pub uint_mul_decimal : ℕ → ℕ → Outcome ℕ
  -- `Decimal::from_ratio`
  pub decimal_from_ratio : ℕ → ℕ → Outcome ℕ
  -- `Decimal + Decimal`
  pub decimal_add : ℕ → ℕ → Outcome ℕ
  pub uint_add_lem :
      (a b : ℕ) → uint_add a b ≡ (if leb (a + b) uint128_max then ok (a + b) else panic arithmetic)
  pub uint_checked_sub_lem :
      (a b : ℕ) → uint_checked_sub a b ≡ (if leb b a then ok (a - b) else err overflow)
  pub uint_mul_decimal_lem :
      (a d : ℕ)
      → uint_mul_decimal a d ≡ (
          if leb (a * d / decimal_one) uint128_max
          then ok (a * d / decimal_one)
          else panic arithmetic)
  pub decimal_from_ratio_lem :
      (n d : ℕ)
      → decimal_from_ratio n d ≡ (
          if d == 0
          then panic divide_by_zero
          else if leb (n * decimal_one / d) uint128_max
          then ok (n * decimal_one / d)
          else panic arithmetic)
  pub decimal_add_lem :
      (a b : ℕ)
      → decimal_add a b ≡ (if leb (a + b) uint128_max then ok (a + b) else panic arithmetic)

-- cosmwasm_std's `Api`. Human and canonical addresses are texts that are only compared.
pub record Api : Type 0 where
  pub addr_canonicalize : String → Outcome String
  pub addr_humanize : String → Outcome String
  pub addr_validate : String → Outcome String

-- rand's `gen_range(0, n)` on the generator seeded from a number.
pub record Rng : Type 0 where
  pub gen_range : ℕ → ℕ → Outcome ℕ
  pub gen_range-lt : (seed n : ℕ) → 0 < n → (r : ℕ) × (gen_range seed n ≡ ok r) × (r < n)
  pub gen_range-zero : (seed : ℕ) → gen_range seed 0 ≡ panic empty_range

-- cw_controllers' `Admin`, on the stored admin.
pub record AdminControl : Type 0 where
  pub is_admin : Option String → String → Bool
  pub is_admin-none : (sender : String) → is_admin none sender ≡ false
  pub is_admin-some : (admin sender : String) → is_admin (some admin) sender ≡ str_eq admin sender

-- `range(None, None, Ascending)` of a bucket or a prefixed store: its entries by their encoded
-- keys, each once.
pub record KeyOrder : Type 0 where
  pub ascending_batches : List (ℕ × ℕ) → List (ℕ × ℕ)
  pub ascending_validators : List String → List String
  pub ascending_batches-perm : (l : List (ℕ × ℕ)) → Perm (ascending_batches l) l
  pub ascending_validators-perm : (l : List String) → Perm (ascending_validators l) l

pub record Platform : Type 0 where
  pub numbers : Numbers
  pub open numbers use *
  pub api : Api
  pub open api use *
  pub rng : Rng
  pub open rng use *
  pub admins : AdminControl
  pub open admins use *
  pub key_order : KeyOrder
  pub open key_order use *
