-- ===== src/Protocol.antt =====
-- packages/prism-protocol/src: the messages, stored records and answers of the two contracts.
pub mod Hub
pub mod Rewards
pub mod ContractError
