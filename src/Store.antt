-- ===== src/Store.antt =====
-- The tables, what else a request can change, and the actions on them. The database and the Python
-- code over it are one state; `transaction.atomic` and exceptions are a monad over it.
mod Tables
mod Monad
pub use Tables.*
pub use Monad.*
