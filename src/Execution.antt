-- ===== src/Execution.antt =====
-- packages/taurus_core/execution and the settings that it reads.
mod Config
mod Schemas
pub mod Costs
pub mod Slippage
pub use Config.*
pub use Schemas.*
