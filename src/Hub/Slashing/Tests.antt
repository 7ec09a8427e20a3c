-- ===== src/Hub/Slashing/Tests.antt =====
-- A tenth of the delegations is slashed.
use prism_auto_compounding_c.Prelude.{◌≡◌, refl, List, [], ◌∷◌}
use prism_auto_compounding_c.Outcome.{ok}
use prism_auto_compounding_c.Platform.Reference.{reference}
use prism_auto_compounding_c.Chain.{Delegation, Querier}
use prism_auto_compounding_c.Hub.Store.{Store}
use prism_auto_compounding_c.Hub.Sample.{store, querier, env, delegation}
use prism_auto_compounding_c.Hub.Rates.{update_exchange_rate}
use prism_auto_compounding_c.Hub.Slashing.{query_total_issued, sum_delegations, reconcile, slashing}
use prism_auto_compounding_c.Hub.Slashing.Laws.{SameButBond, checked_bond, slashing_lem}

abbrev slashed : List Delegation
slashed = delegation "val1" 200 ∷ delegation "val2" 700 ∷ []

abbrev slashed_querier : Querier
slashed_querier = record querier { all_delegations = λ _. ok slashed }

abbrev slashed_store : Store
slashed_store = record store {
  state = record (store.state) { total_bond_amount = 900; exchange_rate = 900000000000000000 };
}

slashing_run : slashing slashed_querier env store ≡ ok slashed_store
unfolding slashing sum_delegations query_total_issued reconcile update_exchange_rate
slashing_run = refl

slashing_example : SameButBond store slashed_store × (900 ≡ checked_bond store slashed)
slashing_example = slashing_lem slashed_querier env store slashed_store slashed refl slashing_run
