-- ===== src/Security.antt =====
-- The API tokens and the JSON Web Tokens (src/security).
pub mod ApiToken
pub mod Jwt
