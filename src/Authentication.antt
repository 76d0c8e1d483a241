-- ===== src/Authentication.antt =====
-- apps/authentication.
pub mod Models
pub mod Services
pub mod Tokens
pub mod Tasks
pub mod OneShot
pub mod Sessions
pub mod Registration
pub mod Serializers
pub mod Views
