-- ===== src/Hub/Admin/Migration.antt =====
-- What the owner can do behind a migration (contracts/prism_hub/src/migration.rs and config.rs).
use prism_auto_compounding_c.Prelude.{
  String, ◌≡◌, inl, inr, true, false, none, some, List, [], arith,
}
use prism_auto_compounding_c.Outcome.{Outcome, ok, Outcome-cases}
use prism_auto_compounding_c.Platform.{Platform}
use prism_auto_compounding_c.Chain.{Env, MessageInfo, Querier, CosmosMsg}
use prism_auto_compounding_c.Protocol.Hub.{MigrateMsg, update_config}
use prism_auto_compounding_c.Hub.Store.{Store}
use prism_auto_compounding_c.Hub.Admin.{
  LegacyConfig, is_contract_paused, unwrap_assert_admin, set_token, set_collector,
  execute_update_config, migrate_config, migrate,
}
use prism_auto_compounding_c.Hub.Contract.{execute}

module _ ⦃p : Platform⦄ where
  open p use {addr_canonicalize, is_admin}

  -- A migration keeps the token contract and the fee collector of the old config, and sets the
  -- rewards contract; behind it the owner of an unpaused hub can replace the token contract by
  -- any other, also one that was registered.
  pub migrate-update_config :
      (legacy : Outcome LegacyConfig) (old : LegacyConfig) (msg : MigrateMsg) (s s1 : Store)
      (ms : List CosmosMsg) (q : Querier) (env : Env) (info : MessageInfo) (token raw : String)
      → legacy ≡ ok old
      → migrate legacy msg s ≡ ok (ms, s1)
      → is_admin s.admin info.sender ≡ true
      → s.paused ≡ false
      → addr_canonicalize token ≡ ok raw
      → (rewards : String) × (addr_canonicalize msg.rewards_contract ≡ ok rewards)
        × (s1.config.rewards_contract ≡ some rewards)
        × (s1.config.token_contract ≡ old.token_contract)
        × (s1.config.protocol_fee_collector ≡ old.protocol_fee_collector)
        × (execute q env info s1 (update_config (some token) none)
            ≡ ok (
              [],
              record s1 {
                config = record (s1.config) {
                  token_contract = some raw;
                  token_contract_registered = true;
                };
              },
            ))
  unfolding migrate migrate_config execute is_contract_paused execute_update_config
      unwrap_assert_admin set_token set_collector
  migrate-update_config legacy old msg s s1 ms q env info token raw read e owner running known =
      elim (Outcome-cases (addr_canonicalize msg.rewards_contract)) [
        | inr other ↦ absurd (ground arith)
        | inl (rewards, set) ↦
            (rewards, set, ground arith, ground arith, ground arith, ground arith)
      ]
