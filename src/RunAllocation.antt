-- ===== src/RunAllocation.antt =====
-- portfolio/run_allocation.py: `RunLevelAllocationService`, which ranks a run's purchases and sizes
-- them one after the other.
pub mod Input
pub mod Pending
pub mod Status
pub mod Run
pub mod Steps
pub mod Spending
pub mod Cash
pub mod Complete
pub mod Fallback
pub mod Settings
pub mod FallbackCash
pub mod FallbackTotal
