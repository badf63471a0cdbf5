-- ===== src/Api.antt =====
-- The authentication in front of the HTTP interface and its handlers (src/api).
pub mod Middleware
pub mod Handlers
