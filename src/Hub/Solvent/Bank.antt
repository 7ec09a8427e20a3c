-- ===== src/Hub/Solvent/Bank.antt =====
-- The hub and its balance of the underlying coin at the bank: what is owed is always there.
use prism_auto_compounding_c.Prelude.{
  ℕ, String, ◌+◌, ◌-◌, ◌≤◌, ◌≡◌, inl, inr, List, arith, ap, sym, ◌∙◌, sum_by,
}
use prism_auto_compounding_c.Outcome.{Outcome, ok, ok_injective}
use prism_auto_compounding_c.Platform.{Platform}
use prism_auto_compounding_c.Chain.{Env, MessageInfo, Querier, CosmosMsg}
use prism_auto_compounding_c.Protocol.Hub.{
  InstantiateMsg, MigrateMsg, ExecuteMsg, State, withdraw_unbonded,
}
use prism_auto_compounding_c.Hub.Store.{Store}
use prism_auto_compounding_c.Hub.Slashing.Laws.{slashing_frame, update_exchange_rate_frame}
use prism_auto_compounding_c.Hub.Unbond.{execute_unbond}
use prism_auto_compounding_c.Hub.Unbond.Effect.{execute_unbond_lem}
use prism_auto_compounding_c.Hub.Admin.{LegacyConfig, migrate}
use prism_auto_compounding_c.Hub.Instantiate.{instantiate}
use prism_auto_compounding_c.Hub.Contract.{execute}
use prism_auto_compounding_c.Hub.Contract.Coin.{
  coin_of, execute-coin, migrate-coin, instantiate-coin,
}
use prism_auto_compounding_c.Hub.Validators.Whitelist.{Distinct}
use prism_auto_compounding_c.Hub.Withdraw.{process_withdraw_rate}
use prism_auto_compounding_c.Hub.Invariant.Frames.{SameButBond-Untouched, migrate-Untouched}
use prism_auto_compounding_c.Hub.Invariant.Cases.{execute_cases}
use prism_auto_compounding_c.Hub.Solvent.{owed}
use prism_auto_compounding_c.Hub.Solvent.Release.{IsShared}
use prism_auto_compounding_c.Hub.Solvent.Runs.{
  AffordedRun, set_up, message, migrated, AffordedRun-IsSolvent,
}
use prism_auto_compounding_c.Hub.Solvent.Spending.{
  coins_in, spent_in, execute-Spends, withdraw-spends,
}

module _ ⦃p : Platform⦄ where
  -- A withdrawal shares out no more than a small loss.
  abbrev pub SharesLoss : Querier → Env → Store → ExecuteMsg → Type 0
  SharesLoss q env s msg =
      (balance : ℕ) (s1 : Store)
      → msg ≡ withdraw_unbonded
      → q.balance env.contract s.parameters.underlying_coin_denom ≡ ok balance
      → process_withdraw_rate (env.time - s.parameters.unbonding_period) balance s ≡ ok s1
      → IsShared balance s s1

  -- The hub with its balance of the coin it was set up to bond. The chain adds to it at any time:
  -- coins that come back from validators, rewards and gifts. A message's funds arrive before it is
  -- handled, a query then answers the balance with them, and what its own messages delegate, send
  -- or hand over leaves it.
  pub data BankedRun (denom : String) : Store → ℕ → Type 0 where
    opened :
        (env : Env) (info : MessageInfo) (msg : InstantiateMsg) (s : Store) (ms : List CosmosMsg)
        (bank : ℕ)
        → instantiate env info msg ≡ ok (ms, s)
        → msg.underlying_coin_denom ≡ denom
        → BankedRun denom s bank
    received :
        (s : Store) (bank bank' : ℕ)
        → BankedRun denom s bank
        → bank ≤ bank'
        → BankedRun denom s bank'
    handled :
        (q : Querier) (env : Env) (info : MessageInfo) (msg : ExecuteMsg) (s s' : Store)
        (ms : List CosmosMsg) (bank bank' : ℕ)
        → BankedRun denom s bank
        → execute q env info s msg ≡ ok (ms, s')
        → q.balance env.contract denom ≡ ok (bank + coins_in denom info.funds)
        → bank' + spent_in denom ms ≡ bank + coins_in denom info.funds
        → SharesLoss q env s msg
        → BankedRun denom s' bank'
    upgraded :
        (legacy : Outcome LegacyConfig) (msg : MigrateMsg) (s s' : Store) (ms : List CosmosMsg)
        (bank : ℕ)
        → BankedRun denom s bank
        → migrate legacy msg s ≡ ok (ms, s')
        → BankedRun denom s' bank

  instantiate-remembers :
      (env : Env) (info : MessageInfo) (msg : InstantiateMsg) (s : Store) (ms : List CosmosMsg)
      → instantiate env info msg ≡ ok (ms, s)
      → s.state.prev_hub_balance ≡ 0
  unfolding instantiate
  instantiate-remembers env info msg s ms e = ground arith

  unbond-remembers :
      (q : Querier) (env : Env) (amount : ℕ) (user : String) (s s' : Store) (ms : List CosmosMsg)
      → execute_unbond q env amount user s ≡ ok (ms, s')
      → s'.state.prev_hub_balance ≡ s.state.prev_hub_balance
  unbond-remembers q env amount user s s' ms e =
      let (s1, supply, batch, st, s2, checked, issued, requests, saves) =
        execute_unbond_lem q env amount user s s' ms e in
      let first = (SameButBond-Untouched (slashing_frame q env s s1 checked)).remembered in
      let rated =
        ap (λ (t : State). t.prev_hub_balance)
          (update_exchange_rate_frame _ st _ _ requests.rate) in
      elim (saves.outcome) [
        | inl (_, _, _, same, _) ↦ ap (λ (t : State). t.prev_hub_balance) same ∙ rated ∙ first
        | inr (_, closes) ↦ ap (λ (t : State). t.prev_hub_balance) closes.left ∙ rated ∙ first
      ]

  -- The remembered balance stays at or below the bank's.
  handled-remembers :
      (q : Querier) (env : Env) (info : MessageInfo) (msg : ExecuteMsg) (s s' : Store)
      (ms : List CosmosMsg) (bank bank' : ℕ)
      → execute q env info s msg ≡ ok (ms, s')
      → q.balance env.contract s.parameters.underlying_coin_denom
        ≡ ok (bank + coins_in s.parameters.underlying_coin_denom info.funds)
      → bank' + spent_in s.parameters.underlying_coin_denom ms
        ≡ bank + coins_in s.parameters.underlying_coin_denom info.funds
      → s.state.prev_hub_balance ≤ bank
      → s'.state.prev_hub_balance ≤ bank'
  handled-remembers q env info msg s s' ms bank bank' e asked moved le =
      elim (execute-Spends q env info msg s s' ms e) [
        | inr (_, balance, found, left) ↦ let same = ok_injective (sym found ∙ asked) in omega arith
        | inl spends ↦ elim (execute_cases q env info s s' msg ms e) [
          | inl untouched ↦ let same = untouched.remembered in omega arith
          | inr (inl (m, _, run)) ↦
              let same = unbond-remembers q env m.amount m.sender s s' ms run in omega arith
          | inr (inr (_, run)) ↦
              let (balance, found, left) = withdraw-spends q env info s s' ms run in
              let same = ok_injective (sym found ∙ asked) in omega arith
        ]
      ]

  -- The hub of the run bonds the run's coin.
  BankedRun-coin :
      (denom : String) (s : Store) (bank : ℕ) → BankedRun denom s bank → coin_of s ≡ denom
  BankedRun-coin denom _ _ (opened env info msg s ms _ e named) =
      instantiate-coin env info msg s ms e ∙ named
  BankedRun-coin denom _ _ (received s bank _ r _) = BankedRun-coin denom s bank r
  BankedRun-coin denom _ _ (handled q env info msg s s' ms bank _ r e _ _ _) =
      execute-coin q env info s s' msg ms e ∙ BankedRun-coin denom s bank r
  BankedRun-coin denom _ _ (upgraded legacy msg s s' ms bank r e) =
      migrate-coin legacy msg s s' ms e ∙ BankedRun-coin denom s bank r

  BankedRun-AffordedRun :
      (denom : String) (s : Store) (bank : ℕ)
      → BankedRun denom s bank
      → AffordedRun s × (s.state.prev_hub_balance ≤ bank)
  BankedRun-AffordedRun denom _ bank (opened env info msg s ms _ e _) =
      (set_up env info msg s ms e, ground (arith, instantiate-remembers env info msg s ms e))
  BankedRun-AffordedRun denom _ _ (received s bank bank' r more) =
      let (run, le) = BankedRun-AffordedRun denom s bank r in (run, omega arith)
  BankedRun-AffordedRun denom _ _
        (handled q env info msg s s' ms bank bank' r e asked moved shared) =
      let (run, le) = BankedRun-AffordedRun denom s bank r in
      let coin = BankedRun-coin denom s bank r in
      let asked_coin : q.balance env.contract (coin_of s) ≡ ok (bank + coins_in denom info.funds) =
        rw coin asked in
      (
        message q env info msg s s' ms run e (λ balance s1 withdrawal found processed.
            let same = ok_injective (sym asked_coin ∙ found) in
            record { grown = omega arith; shared = shared balance s1 withdrawal found processed }),
        handled-remembers q env info msg s s' ms bank bank' e (rw coin asked) (rw coin moved) le,
      )
  BankedRun-AffordedRun denom _ bank (upgraded legacy msg s s' ms _ r e) =
      let (run, le) = BankedRun-AffordedRun denom s bank r in
      let same = (migrate-Untouched legacy msg s s' ms e).remembered in
      (migrated legacy msg s s' ms run e, omega arith)

  -- Whatever messages a hub handles while the chain only adds to its balance of the coin it was
  -- set up to bond, and each withdrawal shares out at most a small loss, that balance covers at
  -- any time what any group of different users can withdraw for the released batches: bonding,
  -- compounding and undelegating never touch it.
  pub BankedRun-covers :
      (denom : String) (s : Store) (bank : ℕ) (us : List String)
      → BankedRun denom s bank
      → Distinct us
      → sum_by (λ u. owed s u) us ≤ bank
  BankedRun-covers denom s bank us r d =
      let (run, le) = BankedRun-AffordedRun denom s bank r in
      let claims = (AffordedRun-IsSolvent s run).claims us d in omega arith
