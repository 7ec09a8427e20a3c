-- ===== src/Hub/Invariant/Tests.antt =====
-- The invariant of the batches in a hub that has closed its first batch.
use prism_auto_compounding_c.Platform.Reference.{reference}
use prism_auto_compounding_c.Hub.Invariant.{IsValid}
use prism_auto_compounding_c.Hub.Invariant.Reach.{Reach-IsValid}
use prism_auto_compounding_c.Hub.Invariant.Scenario.{closed_store, closed-Reach}

Reach-IsValid_example : IsValid closed_store
Reach-IsValid_example = Reach-IsValid closed_store closed-Reach
