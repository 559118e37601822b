-- ===== src/Tests.antt =====
-- The services on concrete data: the theorems of the other modules at inputs where they apply.
mod Data
mod Store
mod Import
mod Parser
mod Booking
mod Auth
mod Http
mod Bot
mod BotData
mod Platform
mod Workers
