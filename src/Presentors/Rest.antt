-- ===== src/Presentors/Rest.antt =====
-- library/presentors/rest: error responses, request parameters, controllers.
pub mod Handlers
pub mod Params
pub mod Books
pub mod Users
pub mod OpenLibrary
pub mod Health
pub mod RequestId
pub mod Requests
mod Tests
