-- ===== src/Trader.antt =====
-- agents/trader_agent.py: `TraderAgent`, which proposes an action and a target for a symbol from the
-- debate about it, and takes the advice of a language model within the limits of its own decision.
pub mod Context
pub mod Lifecycle
pub mod Advice
pub mod Envelope
pub mod Proposed
pub mod Refused
