-- ===== src/Parser.antt =====
-- internal/core/parser: the timetable import.
pub mod Domain
pub mod RoomName
pub mod Times
pub mod Service
pub mod Source
