-- ===== src/Rewards/Compounded.antt =====
-- The rewards contract's message, as the hub takes it (contracts/prism_rewards/src/contract.rs and
-- contracts/prism_hub/src/autho_compounding.rs).
use prism_auto_compounding_c.Prelude.{ℕ, String, ◌≡◌, some, List, [], ◌∷◌, arith, eq_iff}
use prism_auto_compounding_c.Outcome.{ok}
use prism_auto_compounding_c.Platform.{Platform}
use prism_auto_compounding_c.Chain.{
  Coin, Env, MessageInfo, Querier, CosmosMsg, wasm_execute, to_hub,
}
use prism_auto_compounding_c.Protocol.Hub.{ExecuteMsg, update_exchange_rate}
use prism_auto_compounding_c.Protocol.Rewards.{process_rewards}
use prism_auto_compounding_c.Hub.Store.{Store}
use prism_auto_compounding_c.Hub.Bond.{find_payment}
use prism_auto_compounding_c.Hub.Compound.Effect.{Compounds, execute_update_exchange_rate_lem}
use prism_auto_compounding_c.Hub.Contract
use prism_auto_compounding_c.Hub.Contract.Dispatch.{running as still_running}
use prism_auto_compounding_c.Rewards
use prism_auto_compounding_c.Rewards.Forward.{execute_lem}

-- The only coin of the funds is the payment that is found.
find_payment_only :
    (denom : String) (c payment : Coin) → find_payment denom (c ∷ []) ≡ some payment → payment ≡ c
unfolding find_payment
find_payment_only denom c payment e = ground (arith, eq_iff c.denom denom)

module _ ⦃p : Platform⦄ where
  hub-Compounds :
      (q : Querier) (env : Env) (sender : String) (coin : Coin) (s s' : Store) (ms : List CosmosMsg)
      → Contract.execute q env
          (record { sender = sender; funds = coin ∷ [] })
          s
          update_exchange_rate
        ≡ ok (ms, s')
      → Compounds q s s' coin ms
  unfolding Contract.execute
  hub-Compounds q env sender coin s s' ms e =
      let (raw, payment, set, human, found, c) =
        execute_update_exchange_rate_lem q env (record { sender = sender; funds = coin ∷ [] }) s s'
          ms (still_running s _ e) in
      let same = find_payment_only s.parameters.underlying_coin_denom coin payment found in
      rw same at c

  -- When the hub takes the message that the rewards contract sends, in which both succeed, the
  -- whole balance of the rewards contract is compounded: it is a positive amount of the hub's
  -- coin, split exactly into the fee and the rewards, and spent by the hub's messages.
  pub forwarded-Compounds :
      (q q' : Querier) (env env' : Env) (info : MessageInfo) (r r' : Rewards.Store) (s s' : Store)
      (hub : String) (msg : ExecuteMsg) (funds : List Coin) (ms : List CosmosMsg)
      → Rewards.execute q env info r process_rewards
        ≡ ok (wasm_execute hub (to_hub msg) funds ∷ [], r')
      → Contract.execute q' env' (record { sender = env.contract; funds = funds }) s msg
        ≡ ok (ms, s')
      → (balance : ℕ) × (q.balance env.contract r.config.underlying_coin_denom ≡ ok balance)
        × Compounds q' s s' (record { denom = r.config.underlying_coin_denom; amount = balance }) ms
  forwarded-Compounds q q' env env' info r r' s s' hub msg funds ms sent taken =
      let (running, asked_by, balance, asked, message, kept) =
        execute_lem q env info r r' process_rewards (wasm_execute hub (to_hub msg) funds ∷ [])
          sent in
      let coin : Coin = record { denom = r.config.underlying_coin_denom; amount = balance } in
      let the_msg : msg ≡ update_exchange_rate = cc in
      let the_funds : funds ≡ coin ∷ [] = cc in
      (
        balance,
        asked,
        hub-Compounds q' env' env.contract coin s s' ms (rw (the_msg, the_funds) at taken),
      )
