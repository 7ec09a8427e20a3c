-- ===== src/Hub/Compound/Sent.antt =====
-- What the messages of a compounding send and stake.
use prism_auto_compounding_c.Prelude.{
  ℕ, String, ◌+◌, ◌≡◌, inl, inr, List, ◌++◌, arith, length, sum_by, All, All-append, sum_by-append,
}
use prism_auto_compounding_c.Outcome.{ok, Outcome-cases, expect_ok, no_delegation}
use prism_auto_compounding_c.Platform.{Platform}
use prism_auto_compounding_c.Chain.{
  IsTokenless, Coin, Env, Delegation, Querier, CosmosMsg, delegate, bank_send, wasm_execute,
}
use prism_auto_compounding_c.Hub.Stakes.{
  delegated, undelegated, delegated-append, undelegated-append,
}
use prism_auto_compounding_c.Hub.Store.{Store}
use prism_auto_compounding_c.Hub.Compound.{fee_message, delegate_message, send_rewards}

-- What a list of coins is worth, whatever the coins, and what a list of messages sends or
-- delegates.
abbrev pub coins_total : List Coin → ℕ
coins_total = sum_by (λ c. c.amount)

unfoldable pub spent_by : CosmosMsg → ℕ
spent_by (delegate _ c) = c.amount
spent_by (bank_send _ cs) = coins_total cs
spent_by (wasm_execute _ _ cs) = coins_total cs
spent_by _ = 0

abbrev pub spent : List CosmosMsg → ℕ
spent = sum_by spent_by

spent-append : (a b : List CosmosMsg) → spent (a ++ b) ≡ spent a + spent b
spent-append = sum_by-append spent_by

module _ ⦃p : Platform⦄ where
  open p use {addr_humanize, gen_range}

  fee_message-spent :
      (s : Store) (denom : String) (fee : ℕ) (ms : List CosmosMsg)
      → fee_message s denom fee ≡ ok ms
      → spent ms ≡ fee
  unfolding fee_message spent_by
  fee_message-spent s denom fee ms e = ground arith

  delegate_message-spent :
      (ds : List Delegation) (i : ℕ) (denom : String) (rewards : ℕ) (ms : List CosmosMsg)
      → delegate_message ds i denom rewards ≡ ok ms
      → spent ms ≡ rewards
  unfolding delegate_message spent_by
  delegate_message-spent ds i denom rewards ms e = ground arith

  fee_message-IsTokenless :
      (s : Store) (denom : String) (fee : ℕ) (ms : List CosmosMsg)
      → fee_message s denom fee ≡ ok ms
      → All IsTokenless ms
  unfolding fee_message
  fee_message-IsTokenless s denom fee ms e = ground arith

  delegate_message-IsTokenless :
      (ds : List Delegation) (i : ℕ) (denom : String) (rewards : ℕ) (ms : List CosmosMsg)
      → delegate_message ds i denom rewards ≡ ok ms
      → All IsTokenless ms
  unfolding delegate_message
  delegate_message-IsTokenless ds i denom rewards ms e = ground arith

  fee_message-stakes :
      (s : Store) (denom : String) (fee : ℕ) (ms : List CosmosMsg)
      → fee_message s denom fee ≡ ok ms
      → (delegated ms ≡ 0) × (undelegated ms ≡ 0)
  unfolding fee_message
  fee_message-stakes s denom fee ms e = ground arith

  delegate_message-stakes :
      (ds : List Delegation) (i : ℕ) (denom : String) (rewards : ℕ) (ms : List CosmosMsg)
      → delegate_message ds i denom rewards ≡ ok ms
      → (delegated ms ≡ rewards) × (undelegated ms ≡ 0)
  unfolding delegate_message
  delegate_message-stakes ds i denom rewards ms e = ground arith

  pub send_rewards_lem :
      (q : Querier) (env : Env) (s s1 s' : Store) (fee rewards : ℕ) (ms : List CosmosMsg)
      → send_rewards q env fee rewards s s1 ≡ ok (ms, s')
      → (s' ≡ s1)
        × (spent ms ≡ fee + rewards)
        × (All IsTokenless ms)
        × (delegated ms ≡ rewards)
        × (undelegated ms ≡ 0)
  unfolding send_rewards
  send_rewards_lem q env s s1 s' fee rewards ms e =
      let denom = s.parameters.underlying_coin_denom in
      elim (Outcome-cases (expect_ok (q.all_delegations env.contract) no_delegation)) [
        | inr other ↦ absurd (ground arith)
        | inl (ds, asked) ↦ elim (Outcome-cases (gen_range env.height (length ds))) [
          | inr other ↦ absurd (ground arith)
          | inl (i, drawn) ↦ elim (Outcome-cases (fee_message s denom fee)) [
            | inr other ↦ absurd (ground arith)
            | inl (fee_ms, paid) ↦ elim (Outcome-cases (delegate_message ds i denom rewards)) [
              | inr other ↦ absurd (ground arith)
              | inl (del_ms, sent) ↦ (
                ground arith,
                ground (
                  arith,
                  spent-append fee_ms del_ms,
                  fee_message-spent s denom fee fee_ms paid,
                  delegate_message-spent ds i denom rewards del_ms sent,
                ),
                let both : ms ≡ fee_ms ++ del_ms = ground arith in
                    rw both (
                      All-append IsTokenless fee_ms del_ms
                        (fee_message-IsTokenless s denom fee fee_ms paid)
                        (delegate_message-IsTokenless ds i denom rewards del_ms sent)),
                ground (
                  arith,
                  delegated-append fee_ms del_ms,
                  fee_message-stakes s denom fee fee_ms paid,
                  delegate_message-stakes ds i denom rewards del_ms sent,
                ),
                ground (
                  arith,
                  undelegated-append fee_ms del_ms,
                  fee_message-stakes s denom fee fee_ms paid,
                  delegate_message-stakes ds i denom rewards del_ms sent,
                ),
              )
            ]
          ]
        ]
      ]
