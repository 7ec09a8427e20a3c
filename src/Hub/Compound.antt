-- ===== src/Hub/Compound.antt =====
-- contracts/prism_hub/src/autho_compounding.rs: claimed rewards raise the exchange rate and are
-- delegated again; and the claim itself (contract.rs, `execute_update_global`).
pub mod Sent
pub mod Effect
mod Tests
use prism_auto_compounding_c.Prelude.{
  ℕ, String, not, Option, none, some, List, [], ◌∷◌, ◌++◌, ◌==◌, if◌then◌else◌, str_eq, map, length,
  get_elem?,
}
use prism_auto_compounding_c.Outcome.{
  Outcome, ok, err, panic, ensure, ok_or, expect, expect_ok, unauthorized, no_assets,
  no_fee_collector, no_delegation, unwrapped, ◌>>=◌, ◌>>◌,
}
use prism_auto_compounding_c.Platform.{Platform}
use prism_auto_compounding_c.Chain.{
  Coin, Env, MessageInfo, Delegation, Querier, CosmosMsg, delegate, bank_send,
  withdraw_delegator_reward, wasm_execute, to_rewards,
}
use prism_auto_compounding_c.Protocol.Rewards.{process_rewards}
use prism_auto_compounding_c.Hub.Store.{Store}
use prism_auto_compounding_c.Hub.Bond.{find_payment}
use prism_auto_compounding_c.Hub.Slashing.{query_total_issued}

-- A reward withdrawal from the validator of each delegation; none if the query fails.
unfoldable pub withdraw_all_rewards : Querier → String → Outcome (List CosmosMsg)
withdraw_all_rewards q delegator = elim (q.all_delegations delegator) [
  | ok delegations ↦ ok (map (λ d. withdraw_delegator_reward d.validator) delegations)
  | err _ ↦ ok []
  | panic x ↦ panic x
]

module _ ⦃p : Platform⦄ where
  open p use {
    uint_add, uint_checked_sub, uint_mul_decimal, decimal_from_ratio, decimal_add, addr_humanize,
    gen_range,
  }

  unfoldable pub execute_update_global : Querier → Env → Store → Outcome (List CosmosMsg × Store)
  execute_update_global q env s = do
    rewards ← expect s.config.rewards_contract unwrapped
    reward_contract ← addr_humanize rewards
    messages ← withdraw_all_rewards q env.contract
    ok (
      messages ++ wasm_execute reward_contract (to_rewards process_rewards) [] ∷ [],
      record s { state = record (s.state) { last_index_modification = env.time } },
    )

  unfoldable pub protocol_fee_of : Store → ℕ → Outcome ℕ
  protocol_fee_of s claimed_rewards =
      if s.parameters.protocol_fee == 0
      then ok 0
      else uint_mul_decimal claimed_rewards s.parameters.protocol_fee

  -- The rewards raise the rate by their share of the supply, and join the bond.
  unfoldable pub add_rewards : Store → ℕ → ℕ → Outcome Store
  add_rewards s user_rewards total_issued = do
    supply ← uint_add total_issued s.current_batch.requested_with_fee
    increase ← decimal_from_ratio user_rewards supply
    exchange_rate ← decimal_add s.state.exchange_rate increase
    total_bond_amount ← uint_add s.state.total_bond_amount user_rewards
    ok (record s {
      state = record (s.state) {
        exchange_rate = exchange_rate;
        total_bond_amount = total_bond_amount;
      };
    })

  unfoldable pub fee_message : Store → String → ℕ → Outcome (List CosmosMsg)
  fee_message s coin_denom protocol_fee = if protocol_fee == 0 then ok [] else (do
    fee_collector ← ok_or s.config.protocol_fee_collector no_fee_collector
    collector_address ← addr_humanize fee_collector
    ok (
        bank_send collector_address (record { denom = coin_denom; amount = protocol_fee } ∷ [])
        ∷ []))

  -- The validator is one of the delegations, drawn at random.
  unfoldable pub delegate_message : List Delegation → ℕ → String → ℕ → Outcome (List CosmosMsg)
  delegate_message delegations random_index coin_denom user_rewards =
      if user_rewards == 0 then ok [] else (do
        delegation ← expect (get_elem? delegations random_index) unwrapped
        ok (
            delegate delegation.validator (record { denom = coin_denom; amount = user_rewards })
            ∷ []))

  -- The messages, once the new state is saved: the fee to its collector, the rewards to a drawn
  -- validator.
  unfoldable pub send_rewards :
      Querier → Env → ℕ → ℕ → Store → Store → Outcome (List CosmosMsg × Store)
  send_rewards q env protocol_fee user_rewards s s1 = do
    let coin_denom = s.parameters.underlying_coin_denom
    all_delegations ← expect_ok (q.all_delegations env.contract) no_delegation
    random_index ← gen_range env.height (length all_delegations)
    fee_messages ← fee_message s coin_denom protocol_fee
    delegate_messages ← delegate_message all_delegations random_index coin_denom user_rewards
    ok (fee_messages ++ delegate_messages, s1)

  -- From the payment on.
  unfoldable pub compound_payment : Querier → Env → Coin → Store → Outcome (List CosmosMsg × Store)
  compound_payment q env payment s = do
    protocol_fee ← protocol_fee_of s payment.amount
    user_rewards ← uint_checked_sub payment.amount protocol_fee
    total_issued ← query_total_issued q s
    s1 ← add_rewards s user_rewards total_issued
    send_rewards q env protocol_fee user_rewards s s1

  unfoldable pub execute_update_exchange_rate :
      Querier → Env → MessageInfo → Store → Outcome (List CosmosMsg × Store)
  execute_update_exchange_rate q env info s = do
    let coin_denom = s.parameters.underlying_coin_denom
    rewards ← expect s.config.rewards_contract unwrapped
    rewards_contract ← addr_humanize rewards
    ensure (str_eq rewards_contract info.sender) unauthorized
    payment ← ok_or (find_payment coin_denom info.funds) (no_assets coin_denom)
    compound_payment q env payment s
