-- ===== src/Analytics.antt =====
-- apps/analytics.
pub mod Models
pub mod Selectors
pub mod Middleware
pub mod Tasks
pub mod Charts
pub mod Groups
pub mod Rollup
pub mod Months
pub mod Buckets
pub mod Stack
