-- ===== src/System.antt =====
-- What a user asks for in a task, across the program and the contract, and what comes back.
pub mod Requests
pub mod Payments
mod Tests
