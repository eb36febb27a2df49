-- ===== src/User.antt =====
-- services/user: the users, and their creation from events.
pub mod Types
pub mod Repository
pub mod Service
pub mod Rules
pub mod Acks
pub mod Subscriber
pub mod Registration
pub mod Handler
mod Examples
