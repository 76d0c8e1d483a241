-- ===== src/Subscriptions.antt =====
-- apps/subscriptions.
pub mod Models
pub mod Selectors
pub mod Services
pub mod Middleware
pub mod Tasks
pub mod Seed
pub mod Table
pub mod Quotas
pub mod Usage
pub mod Expiry
pub mod Enrollment
pub mod Book
pub mod Changes
pub mod Views
pub mod LeapDay
