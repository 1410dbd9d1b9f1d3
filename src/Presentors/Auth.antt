-- ===== src/Presentors/Auth.antt =====
-- library/presentors/rest/routers/auth.
pub mod Guards
pub mod Tokens
pub mod Endpoints
pub mod Routes
mod Fixtures
mod Tests
