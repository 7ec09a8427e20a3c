-- ===== src/Hub/Histories/Tests.antt =====
-- The history of Alice's batch, before and after its release.
use prism_auto_compounding_c.Prelude.{◌≡◌, ◌⊎◌, refl, some}
use prism_auto_compounding_c.Prelude.Assoc.{lookup}
use prism_auto_compounding_c.Platform.Reference.{reference}
use prism_auto_compounding_c.Protocol.Hub.{UnbondHistory, withdraw_unbonded}
use prism_auto_compounding_c.Hub.Sample.{querier, from_user}
use prism_auto_compounding_c.Hub.Invariant.Reach.{Reach-IsValid}
use prism_auto_compounding_c.Hub.Invariant.Scenario.{
  closed_batch, closed_store, closed-Reach, evening, paid_store, paid_messages, withdraw_run,
}
use prism_auto_compounding_c.Hub.Histories.{ReleasedAs, Follows, execute-Follows}
use prism_auto_compounding_c.Hub.Histories.Later.{now, sent, Later-history}

execute-Follows_example :
    (h' : UnbondHistory) × (lookup 1 paid_store.histories ≡ some h')
    × Follows evening closed_store withdraw_unbonded closed_batch h'
execute-Follows_example =
    execute-Follows querier evening (from_user "alice") withdraw_unbonded closed_store paid_store
      paid_messages 1 closed_batch withdraw_run (Reach-IsValid closed_store closed-Reach) refl

Later-history_example :
    (h' : UnbondHistory) × (lookup 1 paid_store.histories ≡ some h')
    × ((h' ≡ closed_batch) ⊎ ReleasedAs closed_batch h')
Later-history_example =
    Later-history closed_store paid_store 1 closed_batch closed-Reach
      (sent querier evening (from_user "alice") withdraw_unbonded paid_store paid_messages now
        withdraw_run)
      refl
