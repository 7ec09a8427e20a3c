-- ===== src/SignedInt/Tests.antt =====
-- The exact difference at the values of the source's unit test, and the other way round.
use prism_auto_compounding_c.Prelude.{◌≡◌, refl, true, false}
use prism_auto_compounding_c.Outcome.{ok}
use prism_auto_compounding_c.Platform.Reference.{reference}
use prism_auto_compounding_c.SignedInt.{from_subtraction}

smaller_run : from_subtraction 1000000 1100000 ≡ ok (record { magnitude = 100000; negative = true })
unfolding from_subtraction
smaller_run = refl

larger_run : from_subtraction 1100000 1000000 ≡ ok (record { magnitude = 100000; negative = false })
unfolding from_subtraction
larger_run = refl
