-- ===== src/Auth.antt =====
-- services/auth: accounts, tokens and rate limits.
pub mod Types
pub mod Repository
pub mod Service
pub mod Tokens
pub mod Limits
pub mod Publisher
pub mod Registration
pub mod Handler
mod Examples
