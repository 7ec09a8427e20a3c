-- ===== src/Hub/Compound/Effect.antt =====
-- What compounding does with the claimed rewards.
use prism_auto_compounding_c.Prelude.{
  ℕ, String, ◌+◌, ◌-◌, ◌*◌, ◌/◌, ◌<◌, ◌≡◌, inl, inr, some, List, arith, eq_iff, Option-cases, ◌∙◌,
  All,
}
use prism_auto_compounding_c.Outcome.{ok, Outcome-cases}
use prism_auto_compounding_c.Platform.{Platform, decimal_one}
use prism_auto_compounding_c.Chain.{IsTokenless, Coin, Env, MessageInfo, Querier, CosmosMsg}
use prism_auto_compounding_c.Hub.Stakes.{delegated, undelegated}
use prism_auto_compounding_c.Hub.Store.{Store}
use prism_auto_compounding_c.Hub.Bond.{find_payment}
use prism_auto_compounding_c.Hub.Bond.Effect.{find_payment_lem}
use prism_auto_compounding_c.Hub.Slashing.{query_total_issued}
use prism_auto_compounding_c.Hub.Compound.{
  protocol_fee_of, add_rewards, compound_payment, execute_update_exchange_rate,
}
use prism_auto_compounding_c.Hub.Compound.Sent.{spent, send_rewards_lem}

-- What a compounding does: the payment is split into the fee and the users' part.
pub record Compounds ⦃p : Platform⦄ (q : Querier) (s s' : Store) (payment : Coin)
    (ms : List CosmosMsg) : Type 0 where
  pub in_coin : payment.denom ≡ s.parameters.underlying_coin_denom
  pub positive : 0 < payment.amount
  pub fee : ℕ
  pub rewards : ℕ
  pub fee_share : fee ≡ payment.amount * s.parameters.protocol_fee / decimal_one
  pub split : fee + rewards ≡ payment.amount
  pub issued : ℕ
  pub asked : query_total_issued q s ≡ ok issued
  pub supply_positive : 0 < issued + s.current_batch.requested_with_fee
  pub only_bond : s' ≡ record s {
    state = record (s.state) {
      exchange_rate =
          s.state.exchange_rate
          + rewards * decimal_one / (issued + s.current_batch.requested_with_fee);
      total_bond_amount = s.state.total_bond_amount + rewards;
    };
  }
  pub all_spent : spent ms ≡ payment.amount
  pub tokenless : All IsTokenless ms
  pub staked : delegated ms ≡ rewards
  pub unstaked : undelegated ms ≡ 0

module _ ⦃p : Platform⦄ where
  open p use {
    uint_add, uint_add_lem, uint_checked_sub_lem, uint_mul_decimal_lem, decimal_from_ratio_lem,
    decimal_add_lem, addr_humanize, gen_range,
  }

  protocol_fee_of_lem :
      (s : Store) (claimed fee : ℕ)
      → protocol_fee_of s claimed ≡ ok fee
      → fee ≡ claimed * s.parameters.protocol_fee / decimal_one
  unfolding protocol_fee_of
  protocol_fee_of_lem s claimed fee e =
      ground (arith, uint_mul_decimal_lem claimed s.parameters.protocol_fee)

  add_rewards_lem :
      (s s' : Store) (rewards issued : ℕ)
      → add_rewards s rewards issued ≡ ok s'
      → (0 < issued + s.current_batch.requested_with_fee)
        × (s' ≡ record s {
          state = record (s.state) {
            exchange_rate =
                s.state.exchange_rate
                + rewards * decimal_one / (issued + s.current_batch.requested_with_fee);
            total_bond_amount = s.state.total_bond_amount + rewards;
          };
        })
  unfolding add_rewards
  add_rewards_lem s s' rewards issued e =
      let supply : ℕ = issued + s.current_batch.requested_with_fee in
      ground (
        arith,
        uint_add_lem issued s.current_batch.requested_with_fee,
        decimal_from_ratio_lem rewards supply,
        decimal_add_lem s.state.exchange_rate (rewards * decimal_one / supply),
        uint_add_lem s.state.total_bond_amount rewards,
      )

  split_payment :
      (q : Querier) (env : Env) (info : MessageInfo) (s s' : Store) (ms : List CosmosMsg)
      (payment : Coin)
      → find_payment s.parameters.underlying_coin_denom info.funds ≡ some payment
      → compound_payment q env payment s ≡ ok (ms, s')
      → Compounds q s s' payment ms
  unfolding compound_payment
  split_payment q env info s s' ms payment found e =
      let denom = s.parameters.underlying_coin_denom in
      elim (Outcome-cases (protocol_fee_of s payment.amount)) [
        | inr other ↦ absurd (ground arith)
        | inl (fee, share) ↦
            let sub = uint_checked_sub_lem payment.amount fee in
            let rewards : ℕ = payment.amount - fee in
            elim (Outcome-cases (query_total_issued q s)) [
              | inr other ↦ absurd (ground (arith, sub))
              | inl (issued, asked) ↦ elim (Outcome-cases (add_rewards s rewards issued)) [
                | inr other ↦ absurd (ground (arith, sub))
                | inl (s1, added) ↦
                    let (supplied, only) = add_rewards_lem s s1 rewards issued added in
                    let (in_coin, positive) = find_payment_lem denom info.funds payment found in
                    let (same, sum, tokenless, staked, unstaked) =
                      send_rewards_lem q env s s1 s' fee rewards ms (ground (arith, sub)) in
                    rw same (record {
                      in_coin = in_coin;
                      positive = positive;
                      fee = fee;
                      rewards = rewards;
                      fee_share = protocol_fee_of_lem s payment.amount fee share;
                      split = ground (arith, sub);
                      issued = issued;
                      asked = asked;
                      supply_positive = supplied;
                      only_bond = only;
                      all_spent = sum ∙ ground (arith, sub);
                      tokenless = tokenless;
                      staked = staked;
                      unstaked = unstaked;
                    })
              ]
            ]
      ]

  -- A compounding that returns was sent by the rewards contract with a positive amount of the
  -- underlying coin. The payment is split exactly into the protocol fee, its share rounded down,
  -- and the rewards; the messages spend all of it; the rewards join the bond and raise the rate
  -- by their share of the supply, which is not empty; and nothing else in the store changes.
  pub execute_update_exchange_rate_lem :
      (q : Querier) (env : Env) (info : MessageInfo) (s s' : Store) (ms : List CosmosMsg)
      → execute_update_exchange_rate q env info s ≡ ok (ms, s')
      → (raw : String) × (payment : Coin) × (s.config.rewards_contract ≡ some raw)
        × (addr_humanize raw ≡ ok info.sender)
        × (find_payment s.parameters.underlying_coin_denom info.funds ≡ some payment)
        × Compounds q s s' payment ms
  unfolding execute_update_exchange_rate
  execute_update_exchange_rate_lem q env info s s' ms e =
      let denom = s.parameters.underlying_coin_denom in
      elim (Option-cases (s.config.rewards_contract)) [
        | inl unset ↦ absurd (ground arith)
        | inr (raw, set) ↦ elim (Outcome-cases (addr_humanize raw)) [
          | inr other ↦ absurd (ground arith)
          | inl (rewards_contract, human) ↦ elim (Option-cases (find_payment denom info.funds)) [
            | inl unpaid ↦ absurd (ground arith)
            | inr (payment, found) ↦ (
              raw,
              payment,
              set,
              rw human (ground (arith, eq_iff rewards_contract info.sender)),
              found,
              split_payment q env info s s' ms payment found (ground arith),
            )
          ]
        ]
      ]
