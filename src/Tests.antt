-- ===== src/Tests.antt =====
-- Sample data, runs at fixed inputs, and the theorems at inputs that meet their hypotheses.
mod Samples
mod Runs
mod Broker
mod Approval
mod Policy
mod Allocation
mod RunAllocation
mod FallbackRun
mod Trader
