-- ===== src/Server.antt =====
-- The server: server/server.go.
pub mod State
pub mod Refresh
pub mod Email
pub mod New
pub mod Serve
pub mod Handlers
pub mod Lifecycle
pub mod Listen
pub mod Collector
pub mod Reload
pub mod ReloadRequest
mod Tests
