-- ===== src/Store.antt =====
-- db/repositories.py: the tables that paper execution reads and writes, and `ExecutionRepository`.
mod Tables
pub mod Constraints
pub mod Storable
pub mod Checked
pub mod Writes
pub mod Queries
pub mod Keys
pub mod Replace
pub use Tables.*
