-- ===== src/Users.antt =====
-- apps/users.
pub mod Models
pub mod Selectors
pub mod Services
pub mod Views
pub mod Passwords
