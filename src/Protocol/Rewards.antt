-- ===== src/Protocol/Rewards.antt =====
-- packages/prism-protocol/src/rewards.rs: the data types of the rewards contract.
use prism_auto_compounding_c.Prelude.{String}

pub record InstantiateMsg : Type 0 where
  pub hub_addr : String
  pub underlying_coin_denom : String

pub record Config : Type 0 where
  pub hub_contract : String
  pub underlying_coin_denom : String

pub data ExecuteMsg : Type 0 where
  pause unpause : ExecuteMsg
  update_admin : String → ExecuteMsg
  process_rewards : ExecuteMsg

pub data QueryMsg : Type 0 where
  config admin : QueryMsg

pub record ConfigResponse : Type 0 where
  pub hub_contract : String

-- It has no fields.
pub data MigrateMsg : Type 0 where
  migrate_msg : MigrateMsg
