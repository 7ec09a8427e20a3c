-- ===== src/Protocol/ContractError.antt =====
-- packages/prism-protocol/src/contract_error.rs: an error type that neither contract returns.
use prism_auto_compounding_c.Prelude.{String}

-- The errors of cosmwasm_std are their texts.
pub data ContractError : Type 0 where
  std : String → ContractError
  overflow_error : String → ContractError
  unauthorized invalid_zero_amount max_spread_assertion : ContractError
  max_slippage_assertion asset_mismatch : ContractError

-- The `#[error(…)]` texts.
abbrev pub message : ContractError → String
message (ContractError.std text) = text
message (ContractError.overflow_error text) = text
message ContractError.unauthorized = "Unauthorized"
message ContractError.invalid_zero_amount = "Invalid zero amount"
message ContractError.max_spread_assertion = "Max spread assertion"
message ContractError.max_slippage_assertion = "Max slippage assertion"
message ContractError.asset_mismatch = "Asset mismatch"
