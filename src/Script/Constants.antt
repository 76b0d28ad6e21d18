-- ===== src/Script/Constants.antt =====
-- The tables of tasks/proxy/constants.ts.
pub mod Accounts
pub mod Networks
pub mod Lz
