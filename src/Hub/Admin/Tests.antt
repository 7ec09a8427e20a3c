-- ===== src/Hub/Admin/Tests.antt =====
-- A hub with a registered token is migrated, and its owner sets another token.
use prism_auto_compounding_c.Prelude.{String, ◌≡◌, refl, true, false, none, some, List, [], ◌∷◌}
use prism_auto_compounding_c.Outcome.{ok}
use prism_auto_compounding_c.Platform.Reference.{reference}
use prism_auto_compounding_c.Chain.{CosmosMsg, set_withdraw_address}
use prism_auto_compounding_c.Protocol.Hub.{MigrateMsg, update_config}
use prism_auto_compounding_c.Hub.Store.{Store}
use prism_auto_compounding_c.Hub.Sample.{store, querier, env, from_user}
use prism_auto_compounding_c.Hub.Contract.{execute}
use prism_auto_compounding_c.Hub.Admin.{LegacyConfig, migrate_config, migrate}
use prism_auto_compounding_c.Hub.Admin.Migration.{migrate-update_config}

abbrev old_config : LegacyConfig
old_config = record { token_contract = some "token"; protocol_fee_collector = some "collector" }

abbrev to_rewards2 : MigrateMsg
to_rewards2 = record { rewards_contract = "rewards2" }

abbrev migrated_store : Store
migrated_store = record store {
  config = record (store.config) {
    token_contract_registered = false;
    rewards_contract = some "rewards2";
  };
}

abbrev migrate_messages : List CosmosMsg
migrate_messages = set_withdraw_address "rewards2" ∷ []

migrate_run : migrate (ok old_config) to_rewards2 store ≡ ok (migrate_messages, migrated_store)
unfolding migrate migrate_config
migrate_run = refl

migrate-update_config_example :
    (rewards : String) × (reference.addr_canonicalize "rewards2" ≡ ok rewards)
    × (some "rewards2" ≡ some rewards)
    × (some "token" ≡ old_config.token_contract)
    × (some "collector" ≡ old_config.protocol_fee_collector)
    × (execute querier env (from_user "owner") migrated_store (update_config (some "other") none)
        ≡ ok (
          [],
          record migrated_store {
            config = record (migrated_store.config) {
              token_contract = some "other";
              token_contract_registered = true;
            };
          },
        ))
migrate-update_config_example =
    migrate-update_config (ok old_config) old_config to_rewards2 store migrated_store
      migrate_messages querier env (from_user "owner") "other" "other" refl migrate_run refl refl
      refl
