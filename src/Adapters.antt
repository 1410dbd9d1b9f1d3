-- ===== src/Adapters.antt =====
-- library/adapters: the database, the OpenLibrary client, the health checks and the broker.
pub mod Database
pub mod OpenLibrary
pub mod Health
pub mod Nats
