-- ===== src/Dashboard.antt =====
-- apps/dashboard.
pub mod Views
pub mod Params
