-- ===== src/Httpx.antt =====
-- internal/platform/httpx: tokens and middleware that the services share.
pub mod Jwt
pub mod Response
pub mod Identity
pub mod Middleware
