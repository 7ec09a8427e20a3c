-- ===== src/Hub/Rates/Tests.antt =====
-- The rate and the division at small values.
use prism_auto_compounding_c.Prelude.{ℕ, ◌+◌, ◌*◌, ◌≤◌, ◌<◌, ◌≡◌, arith}
use prism_auto_compounding_c.Outcome.{ok}
use prism_auto_compounding_c.Platform.{decimal_one}
use prism_auto_compounding_c.Platform.Reference.{reference}
use prism_auto_compounding_c.Hub.Sample.{state}
use prism_auto_compounding_c.Hub.Rates.{update_exchange_rate}
use prism_auto_compounding_c.Hub.Rates.Bounds.{update_exchange_rate_bounds}

update_exchange_rate_bounds_example :
    (rate : ℕ) × (update_exchange_rate state 990 10 ≡ ok (record state { exchange_rate = rate }))
    × (rate * (990 + 10) ≤ state.total_bond_amount * decimal_one)
    × (state.total_bond_amount * decimal_one < rate * (990 + 10) + (990 + 10))
update_exchange_rate_bounds_example =
    update_exchange_rate_bounds state 990 10 (omega arith) (omega arith) (omega arith) (omega arith)
