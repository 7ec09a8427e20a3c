-- ===== src/Hub/Solvent/Spending.antt =====
-- What the hub spends of the underlying coin (contracts/prism_hub/src/contract.rs, `execute`).
use prism_auto_compounding_c.Prelude.{
  ℕ, String, ◌+◌, ◌≤◌, ◌≡◌, ◌⊎◌, refl, inl, inr, List, [], ◌∷◌, arith, ap, if◌then◌else◌, str_eq,
  str_eq_refl, eq_iff, Bool-cases, sum_by, sum_by-append, sum_by_zero, All-imp, some,
}
use prism_auto_compounding_c.Outcome.{ok}
use prism_auto_compounding_c.Platform.{Platform}
use prism_auto_compounding_c.Chain.{
  Coin, Env, MessageInfo, Querier, CosmosMsg, IsMute, delegate, undelegate, redelegate,
  withdraw_delegator_reward, set_withdraw_address, bank_send, wasm_execute, to_hub, to_rewards,
  token_mint, token_burn,
}
use prism_auto_compounding_c.Protocol.Hub.{ExecuteMsg, CurrentBatch, State, withdraw_unbonded}
use prism_auto_compounding_c.Hub.Store.{Store}
use prism_auto_compounding_c.Hub.Bond.{find_payment, execute_bond}
use prism_auto_compounding_c.Hub.Bond.Effect.{execute_bond_lem}
use prism_auto_compounding_c.Hub.Pick.Undelegations.{pick_validator-All}
use prism_auto_compounding_c.Hub.Unbond.{execute_unbond}
use prism_auto_compounding_c.Hub.Unbond.Effect.{Saves, execute_unbond_lem}
use prism_auto_compounding_c.Hub.Withdraw.{execute_withdraw_unbonded}
use prism_auto_compounding_c.Hub.Withdraw.Payout.{withdraw_once}
use prism_auto_compounding_c.Hub.Compound.{execute_update_exchange_rate}
use prism_auto_compounding_c.Hub.Compound.Sent.{coins_total, spent_by, spent}
use prism_auto_compounding_c.Hub.Compound.Effect.{execute_update_exchange_rate_lem}
use prism_auto_compounding_c.Hub.Contract.{execute}
use prism_auto_compounding_c.Hub.Vault.Acts.{
  Acts, bonds, asks, compounds, checks, pays, rests, execute-Acts,
}

-- The amount of a coin among others, and what messages delegate, send and hand over of it.
abbrev pub coins_in : String → List Coin → ℕ
coins_in denom = sum_by (λ c. if str_eq c.denom denom then c.amount else 0)

abbrev spent_in_by : String → CosmosMsg → ℕ
spent_in_by denom (delegate _ c) = coins_in denom (c ∷ [])
spent_in_by denom (bank_send _ cs) = coins_in denom cs
spent_in_by denom (wasm_execute _ _ cs) = coins_in denom cs
spent_in_by denom _ = 0

abbrev pub spent_in : String → List CosmosMsg → ℕ
spent_in denom = sum_by (spent_in_by denom)

coins_in-le : (denom : String) (cs : List Coin) → coins_in denom cs ≤ coins_total cs
coins_in-le denom [] = omega arith
coins_in-le denom (c ∷ cs) =
    let ih = coins_in-le denom cs in
    elim (Bool-cases (str_eq c.denom denom)) [
      | inl here ↦ rw here (omega arith)
      | inr other ↦ rw other (omega arith)
    ]

spent_in-le : (denom : String) (ms : List CosmosMsg) → spent_in denom ms ≤ spent ms
unfolding spent_by
spent_in-le denom [] = omega arith
spent_in-le denom (delegate _ c ∷ ms) =
    let ih = spent_in-le denom ms in let here = coins_in-le denom (c ∷ []) in omega arith
spent_in-le denom (bank_send _ cs ∷ ms) =
    let ih = spent_in-le denom ms in let here = coins_in-le denom cs in omega arith
spent_in-le denom (wasm_execute _ _ cs ∷ ms) =
    let ih = spent_in-le denom ms in let here = coins_in-le denom cs in omega arith
spent_in-le denom (undelegate _ _ ∷ ms) = let ih = spent_in-le denom ms in omega arith
spent_in-le denom (redelegate _ _ _ ∷ ms) = let ih = spent_in-le denom ms in omega arith
spent_in-le denom (withdraw_delegator_reward _ ∷ ms) = let ih = spent_in-le denom ms in omega arith
spent_in-le denom (set_withdraw_address _ ∷ ms) = let ih = spent_in-le denom ms in omega arith

-- A payment that is found is among the coins.
find_payment-le :
    (denom : String) (funds : List Coin) (c : Coin)
    → find_payment denom funds ≡ some c
    → c.amount ≤ coins_in denom funds
unfolding find_payment
find_payment-le denom [] c e = cc
find_payment-le denom (x ∷ funds) c e =
    ground (arith, eq_iff x.denom denom, find_payment-le denom funds c)

mute_spends : (denom : String) (m : CosmosMsg) → IsMute m → spent_in_by denom m ≡ 0
mute_spends denom (redelegate _ _ _) h = refl
mute_spends denom (withdraw_delegator_reward _) h = refl
mute_spends denom (set_withdraw_address _) h = refl
mute_spends denom (wasm_execute _ (to_hub _) []) h = refl
mute_spends denom (wasm_execute _ (to_rewards _) []) h = refl
mute_spends denom (wasm_execute _ (to_hub _) (_ ∷ _)) h = absurd h
mute_spends denom (wasm_execute _ (to_rewards _) (_ ∷ _)) h = absurd h
mute_spends denom (wasm_execute _ (token_mint _ _) _) h = absurd h
mute_spends denom (wasm_execute _ (token_burn _) _) h = absurd h
mute_spends denom (delegate _ _) h = absurd h
mute_spends denom (undelegate _ _) h = absurd h
mute_spends denom (bank_send _ _) h = absurd h

-- A message spends no more of the coin than comes with it, or pays a withdrawal and remembers
-- what is left of the balance.
abbrev pub Spends :
    Querier → Env → MessageInfo → Store → ExecuteMsg → Store → List CosmosMsg → Type 0
Spends q env info s msg s' ms =
    let denom = s.parameters.underlying_coin_denom in
    (spent_in denom ms ≤ coins_in denom info.funds)
    ⊎ ((msg ≡ withdraw_unbonded)
        × (balance : ℕ) × (q.balance env.contract denom ≡ ok balance)
        × (spent_in denom ms + s'.state.prev_hub_balance ≡ balance))

module _ ⦃p : Platform⦄ where
  bond-spends :
      (q : Querier) (env : Env) (info : MessageInfo) (v : String) (s s' : Store)
      (ms : List CosmosMsg)
      → execute_bond q env info v s ≡ ok (ms, s')
      → let denom = s.parameters.underlying_coin_denom in
        spent_in denom ms ≤ coins_in denom info.funds
  bond-spends q env info v s s' ms e =
      let denom = s.parameters.underlying_coin_denom in
      let (_, _, s1, checked, b) = execute_bond_lem q env info v s s' ms e in
      let paid = find_payment-le denom (info.funds) (b.payment) (b.found) in
      let here = coins_in-le denom (b.payment ∷ []) in rw (b.sent) (omega arith)

  compound-spends :
      (q : Querier) (env : Env) (info : MessageInfo) (s s' : Store) (ms : List CosmosMsg)
      → execute_update_exchange_rate q env info s ≡ ok (ms, s')
      → let denom = s.parameters.underlying_coin_denom in
        spent_in denom ms ≤ coins_in denom info.funds
  compound-spends q env info s s' ms e =
      let denom = s.parameters.underlying_coin_denom in
      let (raw, payment, set, human, found, c) =
        execute_update_exchange_rate_lem q env info s s' ms e in
      let paid = find_payment-le denom (info.funds) payment found in
      let all = c.all_spent in let most = spent_in-le denom ms in omega arith

  saved-spends :
      (q : Querier) (env : Env) (amount : ℕ) (batch : CurrentBatch) (st : State) (s s' : Store)
      (ms : List CosmosMsg) (denom : String)
      → Saves q env amount batch st s s' ms
      → spent_in denom ms ≡ 0
  saved-spends q env amount batch st s s' ms denom saves =
      let burn = wasm_execute (saves.token) (token_burn amount) [] ∷ [] in
      let both = sum_by-append (spent_in_by denom) (saves.undelegations) burn in
      let undelegated : spent_in denom (saves.undelegations) ≡ 0 = elim (saves.outcome) [
        | inl (_, none_sent, _, _, _) ↦ rw none_sent
        | inr (_, c) ↦ sum_by_zero (spent_in_by denom) (saves.undelegations) (
            pick_validator-All (λ m. spent_in_by denom m ≡ 0) (λ v u. refl) q s (c.worth) _ _
              (saves.undelegations) (c.picked))
      ] in
      rw (saves.sent) (omega arith)

  unbond-spends :
      (q : Querier) (env : Env) (amount : ℕ) (user : String) (s s' : Store) (ms : List CosmosMsg)
      (denom : String)
      → execute_unbond q env amount user s ≡ ok (ms, s')
      → spent_in denom ms ≡ 0
  unbond-spends q env amount user s s' ms denom e =
      let (s1, supply, batch, st, s2, checked, issued, requests, saves) =
        execute_unbond_lem q env amount user s s' ms e in
      saved-spends q env amount batch st s2 s' ms denom saves

  pub withdraw-spends :
      (q : Querier) (env : Env) (info : MessageInfo) (s s' : Store) (ms : List CosmosMsg)
      → execute_withdraw_unbonded q env info s ≡ ok (ms, s')
      → let denom = s.parameters.underlying_coin_denom in
        (balance : ℕ) × (q.balance env.contract denom ≡ ok balance)
        × (spent_in denom ms + s'.state.prev_hub_balance ≡ balance)
  withdraw-spends q env info s s' ms e =
      let denom = s.parameters.underlying_coin_denom in
      let (balance, s1, asked, processed, payout) = withdraw_once q env info s s' ms e in
      let left = ap (λ (t : Store). t.state.prev_hub_balance) payout.kept in
      let covered = payout.covered in
      (balance, asked, rw (payout.sent, left, str_eq_refl denom) (omega arith))

  Acts-Spends :
      (q : Querier) (env : Env) (info : MessageInfo) (s s' : Store) {msg : ExecuteMsg}
      (ms : List CosmosMsg)
      → Acts q env info s msg s' ms
      → Spends q env info s msg s' ms
  Acts-Spends q env info s s' ms (bonds v _ e) = inl (bond-spends q env info v s s' ms e)
  Acts-Spends q env info s s' ms (asks amount user _ e) =
      let none_spent =
        unbond-spends q env amount user s s' ms (s.parameters.underlying_coin_denom) e in
      inl (omega arith)
  Acts-Spends q env info s s' ms (compounds _ e) = inl (compound-spends q env info s s' ms e)
  Acts-Spends q env info s s' ms (checks _ e silent) = inl (rw silent (omega arith))
  Acts-Spends q env info s s' ms (pays withdrawal e) =
      let (balance, asked, left) = withdraw-spends q env info s s' ms e in
      inr (withdrawal, balance, asked, left)
  Acts-Spends q env info s s' ms (rests _ silent) =
      let denom = s.parameters.underlying_coin_denom in
      let none_spent =
        sum_by_zero (spent_in_by denom) ms
          (All-imp IsMute _ (λ m mute. mute_spends denom m mute) ms (silent.mute)) in
      inl (omega arith)

  -- Every message that succeeds delegates, sends and hands over, of the underlying coin, at most
  -- what comes with it, so that none of the coins that wait for withdrawals goes elsewhere; a
  -- withdrawal spends what the queried balance loses until it is remembered.
  pub execute-Spends :
      (q : Querier) (env : Env) (info : MessageInfo) (msg : ExecuteMsg) (s s' : Store)
      (ms : List CosmosMsg)
      → execute q env info s msg ≡ ok (ms, s')
      → Spends q env info s msg s' ms
  execute-Spends q env info msg s s' ms e =
      Acts-Spends q env info s s' ms (execute-Acts q env info s s' msg ms e)
