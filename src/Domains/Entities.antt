-- ===== src/Domains/Entities.antt =====
-- library/domains/entities.
pub mod Permission
pub mod Book
pub mod User
pub mod OpenLibrary
