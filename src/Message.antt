-- ===== src/Message.antt =====
-- services/message: the messages of the rooms.
pub mod Types
pub mod Content
pub mod Repository
pub mod Mapper
pub mod Service
pub mod Plain
pub mod Order
pub mod Pages
pub mod Paging
pub mod Rules
pub mod Handler
pub mod Methods
pub mod Deleted
pub mod Publisher
pub mod Client
pub mod Retry
mod Examples
