-- ===== src/Divoom.antt =====
-- The client of the Divoom cloud: divoom/src.
pub mod Types
pub mod Client
pub mod Handlers
pub mod Commands
pub mod Requests
pub mod Display
mod Tests
