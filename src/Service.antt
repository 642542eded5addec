-- ===== src/Service.antt =====
-- The service: service/src/core.
pub mod Updater
pub mod Remote
pub mod Threads
pub mod Formatter
pub mod Cycle
pub mod Lifecycle
pub mod Core
pub mod Setup
pub mod Registration
pub mod Dispatch
pub mod Daemon
