-- ===== src/Loader.antt =====
-- The license loader: licenses.go.
pub mod Jose
pub mod Trim
pub mod File
pub mod Folder
pub mod Sort
pub mod Dedupe
pub mod ScanFolder
pub mod Example
mod Tests
