-- ===== src/Allocation.antt =====
-- portfolio/active_allocation.py and portfolio/score_semantics.py: how `PortfolioAllocationService`
-- sizes a purchase by the money-management policy.
pub mod Input
pub mod Prices
pub mod Governors
pub mod Score
pub mod Rooms
pub mod Decisions
pub mod Service
pub mod Brakes
pub mod Caps
pub mod Branches
pub mod Outcome
pub mod Bounds
pub mod Limits
