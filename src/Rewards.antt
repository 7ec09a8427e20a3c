-- ===== src/Rewards.antt =====
-- contracts/prism_rewards/src: the contract that receives the staking rewards and forwards them
-- to the hub.
pub mod Forward
pub mod Compounded
mod Tests
use prism_auto_compounding_c.Prelude.{
  String, Bool, true, false, Option, some, List, [], ◌∷◌, str_eq,
}
use prism_auto_compounding_c.Outcome.{
  Outcome, ok, ensure, reject_if, expect_ok, not_admin, paused, not_hub, unwrapped, ◌>>=◌, ◌>>◌,
}
use prism_auto_compounding_c.Platform.{Platform}
use prism_auto_compounding_c.Chain.{Env, MessageInfo, Querier, CosmosMsg, wasm_execute, to_hub}
use prism_auto_compounding_c.Protocol.Hub.{update_exchange_rate}
use prism_auto_compounding_c.Protocol.Rewards.{
  InstantiateMsg, Config, ConfigResponse, ExecuteMsg, pause, unpause, update_admin, process_rewards,
}

-- `ADMIN`, `PAUSE` and `CONFIG` of state.rs, once instantiated.
pub record Store : Type 0 where
  pub admin : Option String
  pub paused : Bool
  pub config : Config

unfoldable pub is_contract_paused : Store → Outcome (Unit {0})
is_contract_paused s = reject_if s.paused paused

module _ ⦃p : Platform⦄ where
  open p use {is_admin, addr_canonicalize, addr_humanize, addr_validate}

  unfoldable pub unwrap_assert_admin : Store → String → Outcome (Unit {0})
  unwrap_assert_admin s sender = ensure (is_admin s.admin sender) not_admin

  unfoldable pub instantiate : MessageInfo → InstantiateMsg → Outcome (List CosmosMsg × Store)
  instantiate info msg = do
    addr_canonicalize info.sender >>= λ _. ok tt
    admin ← addr_validate info.sender
    hub_contract ← addr_canonicalize msg.hub_addr
    ok (
      [],
      record {
        admin = some admin;
        paused = false;
        config = record {
          hub_contract = hub_contract;
          underlying_coin_denom = msg.underlying_coin_denom;
        };
      },
    )

  -- The whole balance goes to the hub, with the message that compounds it.
  unfoldable pub execute_process_rewards :
      Querier → Env → MessageInfo → Store → Outcome (List CosmosMsg × Store)
  execute_process_rewards q env info s = do
    hub_contract ← addr_humanize s.config.hub_contract
    ensure (str_eq info.sender hub_contract) not_hub
    balance ← q.balance env.contract s.config.underlying_coin_denom
    ok (
      wasm_execute hub_contract (to_hub update_exchange_rate)
            (record { denom = s.config.underlying_coin_denom; amount = balance } ∷ [])
          ∷ [],
      s,
    )

  unfoldable pub execute :
      Querier → Env → MessageInfo → Store → ExecuteMsg → Outcome (List CosmosMsg × Store)
  execute q env info s pause = do
    unwrap_assert_admin s info.sender
    ok ([], record s { paused = true })
  execute q env info s unpause = do
    unwrap_assert_admin s info.sender
    ok ([], record s { paused = false })
  execute q env info s (update_admin new_admin) = do
    is_contract_paused s
    admin ← addr_validate new_admin
    unwrap_assert_admin s info.sender
    ok ([], record s { admin = some admin })
  execute q env info s process_rewards = do
    is_contract_paused s
    execute_process_rewards q env info s

  unfoldable pub query_config : Store → Outcome ConfigResponse
  query_config s = do
    hub_addr ← expect_ok (addr_humanize s.config.hub_contract) unwrapped
    ok (record { hub_contract = hub_addr })
