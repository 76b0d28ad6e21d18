-- ===== src/Contract.antt =====
-- The EVM side: contracts/LedgerOApp.sol. Its message codec is in Program/Codec, beside the program's.
pub mod Revert
pub mod LedgerOapp
