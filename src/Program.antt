-- ===== src/Program.antt =====
-- The Solana program programs/solana-proxy, and the message codec of the contract that it talks to.
pub mod Payload
pub mod Seeds
pub mod Codec
pub mod Outcome
pub mod Request
pub mod RateLimiter
pub mod Admin
pub mod Receive
pub mod Claim
