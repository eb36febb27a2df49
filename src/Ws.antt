-- ===== src/Ws.antt =====
-- services/websocket/internal/handler: the sessions of the connections.
pub mod Session
pub mod Admission
pub mod Tickets
pub mod Events
pub mod Relay
pub mod Delivery
pub mod System
pub mod Asking
pub mod Queues
pub mod Ending
pub mod Departure
pub mod Left
mod Chat
mod Examples
