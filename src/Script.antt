-- ===== src/Script.antt =====
-- The TypeScript side of the repository: the Hardhat tasks below tasks/ and what they share.
pub mod Number
pub mod Constants
pub mod Environment
pub mod Amounts
pub mod Payload
pub mod Sorting
pub mod Dvns
pub mod Fees
pub mod Keys
pub mod Multisig
pub mod Pda
pub mod Hex
pub mod Client
pub mod Setup
pub mod Staking
pub mod Transactions
pub mod Peer
pub mod Steps
pub mod Oft
pub mod Wiring
pub mod Endpoint
pub mod Tasks
