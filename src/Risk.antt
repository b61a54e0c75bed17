-- ===== src/Risk.antt =====
-- packages/taurus_core/risk.
mod Schemas
pub mod Graph
pub mod Engine
pub use Schemas.*
