-- ===== src/Execution/Slippage/Bounds.antt =====
-- The fill price against the reference price.
use native.Mathlib.Nat.{mul-le-mul_left, sub-le}
use taurus_agent.Base.{ℕ, suc, ◌+◌, ◌-◌, ◌*◌, ◌≤◌, ◌<◌, ◌≡◌, ap, arith, ok}
use taurus_agent.Base.Int.{pos, ◌*ℤ◌, pos_mul, pos_sub}
use taurus_agent.Money.{
  round_half_up, round_half_up_bounds, round_signed, round_signed_nonneg, rate_unit,
}
use taurus_agent.Execution.Schemas.{OrderSide, buy, sell}
use taurus_agent.Execution.Config.{Settings}
use taurus_agent.Execution.Slippage.{fill_price, multiplier}

-- The exact price, over `rate_unit`.
abbrev pub exact_price : ℕ → OrderSide → (reference : ℕ) → ℕ
exact_price bps buy reference = reference * (rate_unit + bps)
exact_price bps sell reference = reference * (rate_unit - bps)

-- Slippage is against the trader.
abbrev pub IsAdverse : OrderSide → (reference price : ℕ) → Type 0
IsAdverse buy reference price = reference ≤ price
IsAdverse sell reference price = price ≤ reference

signed_buy :
    (n bps : ℕ)
    → round_signed (pos n *ℤ multiplier bps buy) rate_unit
      ≡ pos (round_half_up (n * (rate_unit + bps)) rate_unit)
signed_buy n bps = rw pos_mul (round_signed_nonneg (n * (rate_unit + bps)) rate_unit)

signed_sell :
    (n bps : ℕ)
    → bps ≤ rate_unit
    → round_signed (pos n *ℤ multiplier bps sell) rate_unit
      ≡ pos (round_half_up (n * (rate_unit - bps)) rate_unit)
signed_sell n bps h =
    rw (pos_sub rate_unit bps h, pos_mul) (round_signed_nonneg (n * (rate_unit - bps)) rate_unit)

buy_above : (n bps : ℕ) → n ≤ round_half_up (n * (rate_unit + bps)) rate_unit
buy_above n bps =
    omega (arith, round_half_up_bounds (n * (rate_unit + bps)) rate_unit (omega arith))

sell_below : (n bps : ℕ) → bps ≤ rate_unit → round_half_up (n * (rate_unit - bps)) rate_unit ≤ n
sell_below n bps h = omega (
  arith,
  round_half_up_bounds (n * (rate_unit - bps)) rate_unit (omega arith),
  mul-le-mul_left n (sub-le rate_unit bps),
)

-- At a positive reference price, with slippage of at most 10,000 basis points, an order has a fill
-- price. It is at the reference or above for a purchase, at it or below for a sale, and within half
-- a tick of the exact price.
pub fill_price_bounds :
    (s : Settings) (reference : ℕ) (side : OrderSide)
    → s.slippage_bps ≤ rate_unit
    → (p : ℕ) × (fill_price s (suc reference) side ≡ ok (pos p))
      × IsAdverse side (suc reference) p
      × (2 * (p * rate_unit) ≤ 2 * exact_price s.slippage_bps side (suc reference) + rate_unit)
      × (2 * exact_price s.slippage_bps side (suc reference) < 2 * (p * rate_unit) + rate_unit)
unfolding fill_price
fill_price_bounds s reference buy h =
    let exact = exact_price s.slippage_bps buy (suc reference) in
    let (low, high) = round_half_up_bounds exact rate_unit (omega arith) in
    (
      round_half_up exact rate_unit,
      ap ok (signed_buy (suc reference) s.slippage_bps),
      buy_above (suc reference) s.slippage_bps,
      low,
      high,
    )
fill_price_bounds s reference sell h =
    let exact = exact_price s.slippage_bps sell (suc reference) in
    let (low, high) = round_half_up_bounds exact rate_unit (omega arith) in
    (
      round_half_up exact rate_unit,
      ap ok (signed_sell (suc reference) s.slippage_bps h),
      sell_below (suc reference) s.slippage_bps h,
      low,
      high,
    )
