-- ===== src/Api.antt =====
-- The API as a whole: its routes, and how a request is answered.
pub mod Routes
pub mod Resolution
pub mod Paths
pub mod Endpoints
pub mod Dispatch
pub mod Access
pub mod Privacy
pub mod Undisturbed
