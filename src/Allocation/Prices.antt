-- ===== src/Allocation/Prices.antt =====
-- portfolio/active_allocation.py: prices, and shares of the net asset value.
use taurus_agent.Base.{
  ℕ, ◌+◌, ◌-◌, ◌*◌, ◌/◌, Bool, ◌||◌, List, Option, none, some, ◌==◌, leb, if◌then◌else◌, last_of,
  sort_by,
}
use taurus_agent.Base.Int.{ℤ, pos, negsuc}
use taurus_agent.Money.Paise.{quantize_paise}
use taurus_agent.Store.{Candle}
use taurus_agent.Policy.Sections.{hundred}
use taurus_agent.Risk.{TraderProposal}

-- The part `parts / whole` of a positive value.
unfoldable pub share_of : (parts whole : ℕ) → ℤ → ℕ
share_of parts whole (pos n) = if parts == 0 || n == 0 then 0 else quantize_paise (n * parts) whole
share_of parts whole (negsuc n) = 0

-- `_pct_to_notional`
abbrev pub pct_to_notional : ℕ → ℤ → ℕ
pct_to_notional percent = share_of percent hundred

-- `_requested_increase_notional`
unfoldable pub requested_increase_notional : TraderProposal → ℤ → ℕ
requested_increase_notional p nav =
    pct_to_notional (p.target_position_pct_nav - p.current_position_pct_nav) nav

abbrev dated_before : Candle → Candle → Bool
dated_before a b = leb a.trade_date b.trade_date

abbrev pub close_of : Option Candle → ℕ
close_of none = 0
close_of (some candle) = quantize_paise candle.close_price 1

-- `_latest_close`
unfoldable pub latest_close : List Candle → ℕ
latest_close history = close_of (last_of (sort_by dated_before history))

-- `_buffered_price`
unfoldable pub buffered_price : (latest buffer : ℕ) → ℕ
buffered_price latest buffer =
    if latest == 0 || buffer == 0
    then latest
    else quantize_paise (latest * (hundred + buffer)) hundred

-- `_risk_per_share`
unfoldable pub risk_per_share : (latest stop : ℕ) → ℕ
risk_per_share latest stop =
    if latest == 0 || stop == 0 then 0 else quantize_paise (latest * stop) hundred

-- `_risk_to_notional`
unfoldable pub risk_to_notional : (allowed latest risk : ℕ) → ℕ
risk_to_notional allowed latest risk =
    if allowed == 0 || (latest == 0 || risk == 0)
    then 0
    else quantize_paise (latest * (allowed / risk)) 1
