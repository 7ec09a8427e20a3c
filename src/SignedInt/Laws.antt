-- ===== src/SignedInt/Laws.antt =====
-- `SignedInt::from_subtraction` is the exact signed difference, and never fails.
use prism_auto_compounding_c.Prelude.{ℕ, ◌-◌, ◌≡◌, arith, ltb, if◌then◌else◌}
use prism_auto_compounding_c.Outcome.{ok}
use prism_auto_compounding_c.Platform.{Platform}
use prism_auto_compounding_c.SignedInt.{from_subtraction}

module _ ⦃p : Platform⦄ where
  open p use {uint_checked_sub_lem}

  -- For any two amounts the subtraction succeeds; the sign is negative exactly if the
  -- subtrahend is the larger one, and the magnitude is the distance between the two.
  pub from_subtraction_lem :
      (a b : ℕ)
      → from_subtraction a b
        ≡ ok (record { magnitude = if ltb a b then b - a else a - b; negative = ltb a b })
  unfolding from_subtraction
  from_subtraction_lem a b = ground (arith, uint_checked_sub_lem a b, uint_checked_sub_lem b a)
