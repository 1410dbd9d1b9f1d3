-- ===== src/Presentors.antt =====
-- library/presentors: the REST layer and the messages.
pub mod Auth
pub mod Rest
pub mod Faststream
pub mod Wiring
