-- ===== src/System.antt =====
-- The whole service: what every call of a service keeps, and the states that calls can reach.
pub mod Tables
pub mod Kept
pub mod Sound
pub mod Billing
pub mod Accounts
pub mod Sessions
pub mod Keys
pub mod Operations
pub mod Calls
pub mod Reachable
pub mod Spent
pub mod Owned
pub mod Isolation
pub mod Tenancy
pub mod Quiet
