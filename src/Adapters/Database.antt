-- ===== src/Adapters/Database.antt =====
-- library/adapters/database.
pub mod Uow
pub mod Books
pub mod Users
pub mod Tables
pub mod Migrations
