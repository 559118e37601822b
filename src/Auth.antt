-- ===== src/Auth.antt =====
-- internal/core/auth and internal/adapter/auth: the accounts of users, and their tokens.
pub mod Domain
pub mod Service
pub mod Memory
pub mod Users
pub mod Token
pub mod Handler
