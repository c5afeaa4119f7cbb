-- ===== src/Cmd.antt =====
-- The command line: cmd/kustomerd.
pub mod Environment
pub mod Serve
pub mod Client
mod Tests
