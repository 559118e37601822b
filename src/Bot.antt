-- ===== src/Bot.antt =====
-- timetable-homework-tgbot: the Telegram bot that tells students and teachers their timetable and
-- keeps their homework. It is a program of its own with a database of its own.
pub mod Tables
pub mod Session
pub mod Users
pub mod Homework
pub mod HomeworkLists
pub mod Notifications
pub mod Source
pub mod Fill
pub mod Lessons
pub mod Workers
