-- ===== src/Common.antt =====
-- apps/common: what the applications share.
pub mod Errors
pub mod Utils
pub mod Validators
pub mod Permissions
pub mod Throttling
pub mod Handler
pub mod Responses
pub mod Pagination
pub mod Requests
pub mod Middleware
pub mod Handling
