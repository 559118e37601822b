-- ===== src/Store.antt =====
-- internal/adapter/booking/postgres over the schema of migrations/booking.
pub mod Table
pub mod World
pub mod Repository
pub mod Import
