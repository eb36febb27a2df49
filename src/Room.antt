-- ===== src/Room.antt =====
-- services/room/internal: the room service, and its repository.
pub mod Types
pub mod Repository
pub mod Service
pub mod Tables
pub mod Invariant
pub mod Creation
pub mod Pairs
pub mod Transaction
pub mod Safety
pub mod Reachable
pub mod Rules
pub mod Listing
pub mod Opening
pub mod Handler
pub mod Publisher
mod Examples
