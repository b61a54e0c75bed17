-- ===== src/Execution/Config.antt =====
-- The fields of `Settings` (packages/taurus_core/config.py) that paper trading reads. Profile ids,
-- symbols and row ids are only compared, so they are numbers.
use taurus_agent.Base.{ℕ, ◌≤◌, ◌<◌, Bool, true, false}

pub data Mode : Type 0 where
  paper backtest live : Mode

pub data BrokerProvider : Type 0 where
  paper external : BrokerProvider

abbrev pub is_paper_broker : BrokerProvider → Bool
is_paper_broker BrokerProvider.paper = true
is_paper_broker BrokerProvider.external = false

-- `taurus_mode in {"paper", "backtest"}`
abbrev pub is_paper_mode : Mode → Bool
is_paper_mode Mode.paper = true
is_paper_mode Mode.backtest = true
is_paper_mode Mode.live = false

pub record Settings : Type 0 where
  pub live_trading_enabled : Bool
  pub broker_provider : BrokerProvider
  pub taurus_mode : Mode
  pub kill_switch_enabled : Bool
  pub profile_id : ℕ
  -- Basis points, in ten-thousandths.
  pub slippage_bps : ℕ
  pub brokerage_bps : ℕ
  pub exchange_txn_charge_bps : ℕ
  pub tax_levy_bps : ℕ
  pub partial_fill_threshold : ℕ
  -- A fraction between 0 and 1, in ten-thousandths.
  pub first_fill_pct : ℕ
  -- Percentages of NAV, in ten-thousandths.
  pub max_daily_loss_pct : ℕ

-- The field constraints that pydantic enforces.
pub record IsValidSettings (s : Settings) : Type 0 where
  pub threshold : 1 ≤ s.partial_fill_threshold
  pub first_fill_pos : 0 < s.first_fill_pct
  pub first_fill_lt : s.first_fill_pct < 10_000
