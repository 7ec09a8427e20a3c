-- ===== src/Hub/Solvent/Tests.antt =====
-- Alice's ninety coins come back in full, and she withdraws them.
use prism_auto_compounding_c.Prelude.{◌≡◌, refl, sym, ◌∙◌, some, none, [], arith}
use prism_auto_compounding_c.Outcome.{ok, ok_injective}
use prism_auto_compounding_c.Platform.Reference.{reference}
use prism_auto_compounding_c.Protocol.Hub.{receive, update_config, withdraw_unbonded}
use prism_auto_compounding_c.SignedInt.{from_subtraction}
use prism_auto_compounding_c.Hub.Store.{Store, read_unbond_history, store_unbond_history}
use prism_auto_compounding_c.Hub.Sample.{querier, env, from_user}
use prism_auto_compounding_c.Hub.Withdraw.{
  due_history, count_unbonded, actual_unbonded, release_history, release_batches, release_counted,
  process_withdraw_rate,
}
use prism_auto_compounding_c.Hub.Withdraw.Returns.{AllDue}
use prism_auto_compounding_c.Hub.Invariant.Scenario.{
  setup, owner, setup_messages, new_store, instantiate_run, token_store, update_config_run, later,
  from_alice, closed_batch, closed_store, unbond_messages, unbond_run, evening, full_store,
}
use prism_auto_compounding_c.Hub.Solvent.Release.{Affords}
use prism_auto_compounding_c.Hub.Solvent.Runs.{AffordedRun, set_up, message, IsAfforded}
use prism_auto_compounding_c.Hub.Solvent.Payment.{
  Paid, full-Affords, withdrawal_ends, full_withdrawal_ends,
}

closed-AffordedRun : AffordedRun closed_store
closed-AffordedRun =
    message querier later (from_user "token") (receive from_alice) token_store closed_store
      unbond_messages
      (message querier env owner (update_config (some "token") none) new_store token_store []
        (set_up env owner setup new_store setup_messages instantiate_run) update_config_run
        (λ balance s1 other asked processed. absurd (cc)))
      unbond_run (λ balance s1 other asked processed. absurd (cc))

release_run : process_withdraw_rate 200 90 closed_store ≡ ok full_store
unfolding process_withdraw_rate from_subtraction count_unbonded due_history read_unbond_history
    release_counted release_batches release_history actual_unbonded store_unbond_history
release_run = refl

full_store-Affords : Affords 90 closed_store full_store
full_store-Affords = full-Affords 90 1 closed_store full_store (omega arith) refl refl

pub withdraw-IsAfforded : IsAfforded querier evening closed_store withdraw_unbonded
withdraw-IsAfforded balance s1 same asked processed =
    let found : 90 ≡ balance = ok_injective asked in
    let released : s1 ≡ full_store = ok_injective (sym (rw (← found) at processed) ∙ release_run) in
    rw (released, ← found) full_store-Affords

withdrawal_ends_example : Paid querier evening (from_user "alice") 90 closed_store full_store
withdrawal_ends_example =
    withdrawal_ends querier evening (from_user "alice") 90 closed_store full_store
      closed-AffordedRun refl (omega arith) refl (omega arith) release_run full_store-Affords

first_due : due_history closed_store 200 1 ≡ some closed_batch
unfolding due_history read_unbond_history
first_due = refl

none_behind : due_history closed_store 200 2 ≡ none
unfolding due_history read_unbond_history
none_behind = refl

closed_store-AllDue : AllDue closed_store 200 1 1
closed_store-AllDue = record {
  due = λ k low high.
      let only : k ≡ 1 = omega arith in (closed_batch, rw only first_due, omega arith, omega arith);
  stopped = none_behind;
}

full_withdrawal_ends_example :
    (s1 : Store) × (process_withdraw_rate 200 90 closed_store ≡ ok s1)
    × Paid querier evening (from_user "alice") 90 closed_store s1
full_withdrawal_ends_example =
    full_withdrawal_ends querier evening (from_user "alice") 90 1 closed_store closed-AffordedRun
      refl (omega arith) refl (omega arith) (omega arith) closed_store-AllDue refl (omega arith)
