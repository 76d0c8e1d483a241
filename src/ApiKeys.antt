-- ===== src/ApiKeys.antt =====
-- apps/api_keys.
pub mod Models
pub mod Services
pub mod Authentication
pub mod Table
pub mod Limits
pub mod Access
pub mod Lifecycle
pub mod Views
pub mod Concurrent
