-- ===== src/Gateway.antt =====
-- services/gateway: the HTTP endpoints over the gRPC services.
pub mod Http
pub mod Access
pub mod Limiter
pub mod Window
pub mod Tickets
pub mod Effects
pub mod Rooms
pub mod Rights
pub mod Statuses
pub mod Sessions
pub mod Users
pub mod Messages
pub mod Identity
pub mod Posting
pub mod Reading
mod Examples
mod Traffic
