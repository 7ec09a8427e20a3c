-- ===== src/SignedInt.antt =====
-- packages/signed_integers/src/signed_integer.rs: a magnitude with a sign.
mod Tests
pub mod Laws
use prism_auto_compounding_c.Prelude.{ℕ, Bool, true, false}
use prism_auto_compounding_c.Outcome.{Outcome, ok, err, panic, unwrapped, expect_ok, ◌>>=◌}
use prism_auto_compounding_c.Platform.{Platform}

-- `true` marks a negative value.
pub record SignedInt : Type 0 where
  pub magnitude : ℕ
  pub negative : Bool

module _ ⦃p : Platform⦄ where
  open p use {uint_checked_sub}

  -- `SignedInt::from_subtraction`
  unfoldable pub from_subtraction : ℕ → ℕ → Outcome SignedInt
  from_subtraction minuend subtrahend = elim (uint_checked_sub minuend subtrahend) [
    | ok d ↦ ok (record { magnitude = d; negative = false })
    | err _ ↦ do
      d ← expect_ok (uint_checked_sub subtrahend minuend) unwrapped
      ok (record { magnitude = d; negative = true })
    | panic x ↦ panic x
  ]
