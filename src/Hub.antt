-- ===== src/Hub.antt =====
-- contracts/prism_hub/src: the hub contract, which holds the bonded coins.
pub mod Store
pub mod Rates
pub mod Decimals
pub mod Slashing
pub mod Bond
pub mod Pick
pub mod Unbond
pub mod Withdraw
pub mod Compound
pub mod Admin
pub mod Validators
pub mod Instantiate
pub mod Contract
pub mod Query
pub mod Invariant
pub mod Claims
pub mod Solvent
pub mod Histories
pub mod Clock
pub mod Vault
pub mod Stakes
pub mod Sample
