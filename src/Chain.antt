-- ===== src/Chain.antt =====
-- What a handler is given by the chain and what it hands back: the block and the sender, the
-- answers of the chain's queries, and the messages to be sent.
use prism_auto_compounding_c.Prelude.{ℕ, String, Option, List, []}
use prism_auto_compounding_c.Outcome.{Outcome}
use prism_auto_compounding_c.Protocol.Hub.{ExecuteMsg, Cw20HookMsg}
use prism_auto_compounding_c.Protocol.Rewards.{ExecuteMsg as RewardsMsg}

pub record Coin : Type 0 where
  pub denom : String
  pub amount : ℕ

-- `Env`: the block's time in seconds and height, and the contract's own address.
pub record Env : Type 0 where
  pub time : ℕ
  pub height : ℕ
  pub contract : String

pub record MessageInfo : Type 0 where
  pub sender : String
  pub funds : List Coin

pub record Delegation : Type 0 where
  pub delegator : String
  pub validator : String
  pub amount : Coin

-- `deps.querier`, at one point of the chain's history: each query's answer.
pub record Querier : Type 0 where
  -- `query_all_delegations`
  pub all_delegations : String → Outcome (List Delegation)
  -- `query_delegation`: the amount that a delegator has with a validator
  pub delegation : String → String → Outcome (Option Coin)
  -- `query_all_validators`, by address
  pub all_validators : Outcome (List String)
  -- `query_balance`: the amount of a denomination
  pub balance : String → String → Outcome ℕ
  -- the token contract's `TokenInfo`: its total supply
  pub token_supply : String → Outcome ℕ
  -- `from_binary` of a cw20 hook
  pub decode_hook : String → Outcome Cw20HookMsg

-- A `WasmMsg::Execute`'s message, before it is encoded.
pub data Payload : Type 0 where
  token_burn : ℕ → Payload
  token_mint : String → ℕ → Payload
  to_hub : ExecuteMsg → Payload
  to_rewards : RewardsMsg → Payload

pub data CosmosMsg : Type 0 where
  delegate : String → Coin → CosmosMsg
  undelegate : String → Coin → CosmosMsg
  redelegate : String → String → Coin → CosmosMsg
  withdraw_delegator_reward : String → CosmosMsg
  set_withdraw_address : String → CosmosMsg
  bank_send : String → List Coin → CosmosMsg
  wasm_execute : String → Payload → List Coin → CosmosMsg

-- A message that mints or burns no tokens.
abbrev pub IsTokenless : CosmosMsg → Type 0
IsTokenless (wasm_execute _ (token_mint _ _) _) = ⊥
IsTokenless (wasm_execute _ (token_burn _) _) = ⊥
IsTokenless _ = Unit

-- A message that carries neither coins nor tokens and stakes and unstakes nothing.
abbrev pub IsMute : CosmosMsg → Type 0
IsMute (redelegate _ _ _) = Unit
IsMute (withdraw_delegator_reward _) = Unit
IsMute (set_withdraw_address _) = Unit
IsMute (wasm_execute _ (to_hub _) []) = Unit
IsMute (wasm_execute _ (to_rewards _) []) = Unit
IsMute _ = ⊥
