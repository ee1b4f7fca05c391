-- ===== src/Http.antt =====
-- The HTTP server on top of the networking layer, src/http.
pub mod Request
pub mod Context
pub mod Example
pub mod Response
pub mod Server
