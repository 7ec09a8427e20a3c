-- ===== src/Hub/Rates.antt =====
-- The exchange rate: `State::update_exchange_rate` (packages/prism-protocol/src/hub.rs) and
-- `decimal_division` (contracts/prism_hub/src/math.rs).
mod Tests
pub mod Bounds
use prism_auto_compounding_c.Prelude.{ℕ, ◌||◌, ◌==◌, if◌then◌else◌}
use prism_auto_compounding_c.Outcome.{Outcome, ok, ◌>>=◌}
use prism_auto_compounding_c.Platform.{Platform, decimal_one}
use prism_auto_compounding_c.Protocol.Hub.{State}

abbrev pub decimal_fractional : ℕ
decimal_fractional = 1_000_000_000

module _ ⦃p : Platform⦄ where
  open p use {uint_add, uint_mul_decimal, decimal_from_ratio}

  unfoldable pub update_exchange_rate : State → ℕ → ℕ → Outcome State
  update_exchange_rate st total_issued requested_with_fee = do
    actual_supply ← uint_add total_issued requested_with_fee
    rate ←
        if st.total_bond_amount == 0 || actual_supply == 0
        then ok decimal_one
        else decimal_from_ratio st.total_bond_amount actual_supply
    ok (record st { exchange_rate = rate })

  -- a / b
  unfoldable pub decimal_division : ℕ → ℕ → Outcome ℕ
  decimal_division a b = do
    scaled ← uint_mul_decimal decimal_fractional b
    decimal ← decimal_from_ratio a scaled
    uint_mul_decimal decimal_fractional decimal
