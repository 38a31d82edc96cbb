-- ===== src/Http/Laws.antt =====
-- Laws of the HTTP client.
pub mod Routes
pub mod Building
pub mod Conduit
