-- ===== src/Hub/Solvent/BankTests.antt =====
-- Alice's coins at the bank, and what the payment of her withdrawal spends.
use prism_auto_compounding_c.Prelude.{◌≤◌, ◌≡◌, refl, some, none, [], ◌∷◌, arith, sum_by}
use prism_auto_compounding_c.Outcome.{ok}
use prism_auto_compounding_c.Platform.Reference.{reference}
use prism_auto_compounding_c.Chain.{Querier}
use prism_auto_compounding_c.Protocol.Hub.{receive, update_config, withdraw_unbonded}
use prism_auto_compounding_c.Hub.Store.{store_unbond_wait_list, store_unbond_history}
use prism_auto_compounding_c.Hub.Sample.{querier, env, from_user}
use prism_auto_compounding_c.Hub.Rates.{update_exchange_rate}
use prism_auto_compounding_c.Hub.Slashing.{query_total_issued, sum_delegations, reconcile, slashing}
use prism_auto_compounding_c.Hub.Pick.{undelegate_some, pick_rounds, pick_validator}
use prism_auto_compounding_c.Hub.Unbond.{
  amount_less_fee, close_batch, close_if_due, request_unbond, save_unbond, execute_unbond,
}
use prism_auto_compounding_c.Hub.Admin.{
  is_contract_paused, unwrap_assert_admin, set_token, set_collector, execute_update_config,
}
use prism_auto_compounding_c.Hub.Contract.{receive_unbond, receive_cw20, execute}
use prism_auto_compounding_c.Hub.Invariant.Scenario.{
  setup, owner, setup_messages, new_store, instantiate_run, token_store, later, from_alice,
  closed_store, unbond_messages, evening, paid_store, paid_messages, withdraw_run,
}
use prism_auto_compounding_c.Hub.Solvent.{owed}
use prism_auto_compounding_c.Hub.Solvent.Spending.{Spends, execute-Spends}
use prism_auto_compounding_c.Hub.Solvent.Tests.{withdraw-IsAfforded}
use prism_auto_compounding_c.Hub.Solvent.Bank.{
  BankedRun, opened, received, handled, SharesLoss, BankedRun-covers,
}

-- Before the coins come back the hub has none.
abbrev before : Querier
before = record querier { balance = λ _ _. ok 0 }

config_run :
    execute before env (from_user "owner") new_store (update_config (some "token") none)
    ≡ ok ([], token_store)
unfolding execute is_contract_paused execute_update_config unwrap_assert_admin set_token
    set_collector
config_run = refl

close_run :
    execute before later (from_user "token") token_store (receive from_alice)
    ≡ ok (unbond_messages, closed_store)
unfolding execute is_contract_paused receive_cw20 receive_unbond execute_unbond slashing
    sum_delegations query_total_issued reconcile request_unbond amount_less_fee
    store_unbond_wait_list update_exchange_rate save_unbond close_if_due close_batch pick_validator
    pick_rounds undelegate_some store_unbond_history
close_run = refl

closed-BankedRun : BankedRun "uluna" closed_store 0
closed-BankedRun =
    handled before later (from_user "token") (receive from_alice) token_store closed_store
      unbond_messages 0 0
      (handled before env (from_user "owner") (update_config (some "token") none) new_store
        token_store [] 0 0 (opened env owner setup new_store setup_messages 0 instantiate_run refl)
        config_run refl refl (λ balance s1 other asked processed. absurd (cc)))
      close_run refl refl (λ balance s1 other asked processed. absurd (cc))

withdraw-SharesLoss : SharesLoss querier evening closed_store withdraw_unbonded
withdraw-SharesLoss balance s1 withdrawal asked processed =
    (withdraw-IsAfforded balance s1 withdrawal asked processed).shared

paid-BankedRun : BankedRun "uluna" paid_store 0
paid-BankedRun =
    handled querier evening (from_user "alice") withdraw_unbonded closed_store paid_store
      paid_messages 90 0 (received closed_store 0 90 closed-BankedRun (omega arith)) withdraw_run
      refl refl withdraw-SharesLoss

BankedRun-covers_example : sum_by (λ u. owed paid_store u) ("alice" ∷ "bob" ∷ []) ≤ 0
BankedRun-covers_example =
    BankedRun-covers "uluna" paid_store 0 ("alice" ∷ "bob" ∷ []) paid-BankedRun (refl, (refl, tt))

execute-Spends_example :
    Spends querier evening
      (from_user "alice")
      closed_store
      withdraw_unbonded
      paid_store
      paid_messages
execute-Spends_example =
    execute-Spends querier evening (from_user "alice") withdraw_unbonded closed_store paid_store
      paid_messages withdraw_run
