-- ===== src/Products.antt =====
-- The products endpoint: `ClaimsKopanoProductsHandler` of server/handlers.go.
pub mod Merge
pub mod Entry
pub mod Answer
mod Tests
