-- ===== src/Hub/Admin.antt =====
-- The owner's operations: contracts/prism_hub/src/utility.rs, config.rs (parameters and config),
-- contract.rs (`migrate`) and migration.rs.
pub mod Migration
mod Tests
use mathlib.Core.Option.{get_or}
use prism_auto_compounding_c.Prelude.{
  ℕ, String, Bool, true, false, Option, none, some, List, [], ◌∷◌,
}
use prism_auto_compounding_c.Outcome.{
  Outcome, ok, ensure, reject_if, not_admin, paused, token_registered, ◌>>=◌, ◌>>◌,
}
use prism_auto_compounding_c.Platform.{Platform}
use prism_auto_compounding_c.Chain.{CosmosMsg, set_withdraw_address}
use prism_auto_compounding_c.Protocol.Hub.{Config, MigrateMsg}
use prism_auto_compounding_c.Hub.Store.{Store}

-- `LegacyConfig` of migration.rs
pub record LegacyConfig : Type 0 where
  pub token_contract : Option String
  pub protocol_fee_collector : Option String

unfoldable pub is_contract_paused : Store → Outcome (Unit {0})
is_contract_paused s = reject_if s.paused paused

-- The migrated config. `legacy` is what the stored bytes decode to at the old type.
unfoldable pub migrate_config : Outcome LegacyConfig → Option String → Store → Outcome Store
migrate_config legacy rewards_contract s = do
  legacy_config ← legacy
  ok (record s {
    config = record {
      token_contract_registered = false;
      token_contract = legacy_config.token_contract;
      protocol_fee_collector = legacy_config.protocol_fee_collector;
      rewards_contract = rewards_contract;
    };
  })

module _ ⦃p : Platform⦄ where
  open p use {is_admin, addr_canonicalize, addr_validate}

  unfoldable pub unwrap_assert_admin : Store → String → Outcome (Unit {0})
  unwrap_assert_admin s sender = ensure (is_admin s.admin sender) not_admin

  unfoldable pub execute_update_params :
      String
      → Option ℕ
      → Option ℕ
      → Option ℕ
      → Option ℕ
      → Option ℕ
      → Store
      → Outcome (List CosmosMsg × Store)
  execute_update_params sender epoch_period unbonding_period peg_recovery_fee er_threshold
        protocol_fee s =
      do
        unwrap_assert_admin s sender
        let params = s.parameters
        ok (
          [],
          record s {
            parameters = record {
              epoch_period = get_or epoch_period params.epoch_period;
              underlying_coin_denom = params.underlying_coin_denom;
              unbonding_period = get_or unbonding_period params.unbonding_period;
              peg_recovery_fee = get_or peg_recovery_fee params.peg_recovery_fee;
              er_threshold = get_or er_threshold params.er_threshold;
              protocol_fee = get_or protocol_fee params.protocol_fee;
            };
          },
        )

  -- A token contract can be set once.
  unfoldable pub set_token : Option String → Config → Outcome Config
  set_token none c = ok c
  set_token (some token) c = do
    reject_if c.token_contract_registered token_registered
    token_raw ← addr_canonicalize token
    ok (record c { token_contract = some token_raw; token_contract_registered = true })

  unfoldable pub set_collector : Option String → Config → Outcome Config
  set_collector none c = ok c
  set_collector (some collector) c = do
    collector_raw ← addr_canonicalize collector
    ok (record c { protocol_fee_collector = some collector_raw })

  unfoldable pub execute_update_config :
      String → Option String → Option String → Store → Outcome (List CosmosMsg × Store)
  execute_update_config sender token_contract protocol_fee_collector s = do
    unwrap_assert_admin s sender
    c1 ← set_token token_contract s.config
    c2 ← set_collector protocol_fee_collector c1
    ok ([], record s { config = c2 })

  unfoldable pub execute_pause : String → Bool → Store → Outcome (List CosmosMsg × Store)
  execute_pause sender value s = do
    unwrap_assert_admin s sender
    ok ([], record s { paused = value })

  -- The new address is checked before the sender is.
  unfoldable pub execute_update_admin : String → String → Store → Outcome (List CosmosMsg × Store)
  execute_update_admin sender new_admin s = do
    admin ← addr_validate new_admin
    unwrap_assert_admin s sender
    ok ([], record s { admin = some admin })

  unfoldable pub migrate :
      Outcome LegacyConfig → MigrateMsg → Store → Outcome (List CosmosMsg × Store)
  migrate legacy msg s = do
    rewards_contract ← addr_canonicalize msg.rewards_contract
    s1 ← migrate_config legacy (some rewards_contract) s
    ok (set_withdraw_address msg.rewards_contract ∷ [], s1)
