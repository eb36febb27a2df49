-- ===== src/Shared.antt =====
-- services/shared/pkg: what the services share.
pub mod Errors
pub mod Tickets
pub mod Json
pub mod Nats
pub mod Interceptors
pub mod Replies
mod Calls
mod Examples
