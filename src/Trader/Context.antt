-- ===== src/Trader/Context.antt =====
-- agents/trader_agent.py: `_PortfolioContext`, `_ProposalDecision` and what they are made from.
use taurus_agent.Base.{
  ℕ, ◌+◌, ◌*◌, ◌^◌, ◌&&◌, Bool, false, Option, none, some, ◌==◌, ltb, leb, if◌then◌else◌,
}
use taurus_agent.Base.Int.{ℤ, pos, negsuc}
use taurus_agent.Money.Context.{places, round_half_even}
use taurus_agent.Money.Paise.{quantize_ratio}
use taurus_agent.Execution.{PaperAccount, PaperPosition}
use taurus_agent.Policy.Sections.{hundred}
use taurus_agent.Risk.{TraderAction}
use taurus_agent.Store.{Session, Candle}
use taurus_agent.Store.Queries.{
  latest_candle, latest_account_by_portfolio, latest_open_position_by_portfolio_symbol,
}

-- `ConsensusLabel`
pub data ConsensusLabel : Type 0 where
  bullish mild_bullish neutral mild_bearish bearish : ConsensusLabel

-- `LifecycleTrigger`
pub data LifecycleTrigger : Type 0 where
  new_entry hold_review stop_loss take_profit : LifecycleTrigger
  thesis_weakened thesis_invalidated portfolio_rebalance : LifecycleTrigger

-- What the trader reads of `DebateReport`: its symbol and the summary of its manager, whose score
-- and confidence are in units of 0.0001.
pub record DebateReport : Type 0 where
  pub symbol : ℕ
  pub as_of : ℕ
  pub consensus_label : ConsensusLabel
  pub consensus_score : ℤ
  pub confidence : ℕ

-- The fields of `_PortfolioContext` that decide.
pub record PortfolioContext : Type 0 where
  pub latest_close_inr : ℕ
  pub current_quantity : ℕ
  pub average_cost_inr : ℕ
  pub current_position_pct_nav : ℕ

-- The fields of `_ProposalDecision`, without its texts.
pub record ProposalDecision : Type 0 where
  pub action : TraderAction
  pub confidence : ℕ
  pub target_position_pct_nav : ℕ
  pub lifecycle_trigger : LifecycleTrigger

abbrev pub equity_of : Option PaperAccount → ℤ
equity_of none = pos 0
equity_of (some account) = account.equity_inr

abbrev quantity_of : Option PaperPosition → ℕ
quantity_of none = 0
quantity_of (some position) = position.quantity

abbrev cost_of : Option PaperPosition → ℕ
cost_of none = 0
cost_of (some position) = position.average_cost_inr

-- `(market_value / equity) * 100`, where both are positive.
abbrev pub exposure_pct : (market_value : ℕ) → (equity : ℤ) → ℕ
exposure_pct value (pos n) = if ltb 0 n && ltb 0 value then quantize_ratio value n hundred else 0
exposure_pct value (negsuc n) = 0

-- `_portfolio_context` at a given price.
unfoldable pub context_at : Session → (portfolio_id symbol latest : ℕ) → PortfolioContext
context_at db portfolio_id symbol latest =
    let position = latest_open_position_by_portfolio_symbol db portfolio_id symbol in
    let quantity = quantity_of position in
    let value = if ltb 0 quantity && ltb 0 latest then latest * quantity else 0 in
    record {
      latest_close_inr = latest;
      current_quantity = quantity;
      average_cost_inr = cost_of position;
      current_position_pct_nav =
          exposure_pct value (equity_of (latest_account_by_portfolio db portfolio_id));
    }

abbrev close_or_zero : Option Candle → ℕ
close_or_zero none = 0
close_or_zero (some candle) = candle.close_price

-- `_portfolio_context`, which takes the price of a quote or else the last close.
unfoldable pub portfolio_context :
    Session → (portfolio_id symbol : ℕ) → (latest_price : Option ℕ) → PortfolioContext
portfolio_context db portfolio_id symbol (some price) = context_at db portfolio_id symbol price
portfolio_context db portfolio_id symbol none =
    context_at db portfolio_id symbol (close_or_zero (latest_candle db symbol))

-- A part is at least so many percent of a whole, by the quotient in the default context.
unfoldable pub reaches_percent : (part whole percent : ℕ) → Bool
unfolding places round_half_even
reaches_percent part whole percent =
    let e = places (28 + whole) part whole in
    if part == 0
    then false
    else leb (percent * 10 ^ e) (round_half_even (part * 10 ^ e) whole * 100)
