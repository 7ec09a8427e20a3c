-- ===== src/Hub/Store/Tests.antt =====
-- The page behind the first of three batches.
use prism_auto_compounding_c.Prelude.{ℕ, ◌≡◌, refl, some, [], ◌∷◌, arith, map, take}
use Prim.Native.Nat.{min}
use mathlib.Core.Option
use prism_auto_compounding_c.Protocol.Hub.{UnbondHistory}
use prism_auto_compounding_c.Hub.Store.{Store, all_unbond_history}
use prism_auto_compounding_c.Hub.Store.Pages.{behind, all_unbond_history_lem}
use prism_auto_compounding_c.Hub.Sample.{store, first_batch}

abbrev batch : ℕ → UnbondHistory
batch k = record first_batch { batch_id = k }

abbrev long_store : Store
long_store = record store { histories = (1, batch 1) ∷ (2, batch 2) ∷ (300, batch 300) ∷ [] }

all_unbond_history_example :
    all_unbond_history long_store (some 1) (some 1)
    ≡ map (λ e. e.1) (take (min (Option.get_or (some 1) 10) 100) (behind 1 long_store.histories))
all_unbond_history_example =
    all_unbond_history_lem long_store 1 (some 1) (omega arith)
      (omega arith, (omega arith, (omega arith, tt)))

first_page : map (λ e. e.1) (take 1 (behind 1 long_store.histories)) ≡ batch 2 ∷ []
first_page = refl
