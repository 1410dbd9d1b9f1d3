-- ===== src/Application.antt =====
-- library/application: exceptions, results and the two decorators that protect a client.
pub mod Exceptions
pub mod Result
pub mod Reduced
pub mod Cached
pub mod Config
pub mod Keys
