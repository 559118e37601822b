-- ===== src/Booking.antt =====
-- internal/core/booking: the domain of rooms and bookings, its ports, and the use cases.
pub mod Role
pub mod Domain
pub mod Ports
pub mod Service
pub mod Http
