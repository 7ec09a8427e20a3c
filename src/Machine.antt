-- ===== src/Machine.antt =====
-- Rust's `u64`: with the release profile's overflow checks an operation that leaves the range
-- panics. (contracts/prism_hub/Cargo.toml, `overflow-checks = true`)
use prism_auto_compounding_c.Prelude.{ℕ, ◌+◌, ◌-◌, leb, if◌then◌else◌}
use prism_auto_compounding_c.Outcome.{Outcome, ok, panic, arithmetic}

abbrev pub u64_max : ℕ
u64_max = 18446744073709551615

abbrev pub u64_add : ℕ → ℕ → Outcome ℕ
u64_add a b = if leb (a + b) u64_max then ok (a + b) else panic arithmetic

abbrev pub u64_sub : ℕ → ℕ → Outcome ℕ
u64_sub a b = if leb b a then ok (a - b) else panic arithmetic
