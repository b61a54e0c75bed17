-- ===== src/Money.antt =====
-- Decimal amounts: `_money` of execution/costs.py, execution/slippage.py and
-- brokers/paper_broker.py, and the arithmetic of Python's default decimal context. An amount in
-- rupees is a whole number of ticks, one tick being `MONEY_QUANT`, 0.0001 rupee; a rate in basis
-- points is a whole number of ten-thousandths of a basis point.
mod Rounding
pub mod Context
pub mod Paise
pub mod Ratio
unfoldable pub use Rounding.{round_half_up, negate, round_signed, abs_diff, rate_unit}
pub use Rounding.{
  round_half_up_bounds, round_half_up_mono, round_half_up_exact, round_signed_nonneg,
}
