-- ===== src/Execution/Schemas.antt =====
-- execution/schemas.py: orders, fills, positions and accounts. Amounts are in ticks of 0.0001 rupee,
-- times in seconds, dates in days. The constant fields `order_type`, `currency` and
-- `model_version` are left out.
use taurus_agent.Base.{ℕ, Bool, Option, List, ◌==◌, any_of}
use taurus_agent.Base.Int.{ℤ}

pub data OrderSide : Type 0 where
  buy sell : OrderSide

pub data OrderStatus : Type 0 where
  created accepted pending_next_open partially_filled filled cancelled rejected : OrderStatus

pub data ExecutionPolicy : Type 0 where
  immediate next_open : ExecutionPolicy

pub data ScheduledFillSession : Type 0 where
  next_open : ScheduledFillSession

-- The texts that `rejection_reason` takes.
pub data RejectionReason : Type 0 where
  no_candle_data no_executable_quantity insufficient_cash_or_position : RejectionReason
  no_valid_fill no_remaining_quantity insufficient_cash no_holdings : RejectionReason

-- The texts that `outcome_reason` takes.
pub data OutcomeReason : Type 0 where
  missing_signal_trade_date waiting_for_next_candle : OutcomeReason

abbrev pub status_code : OrderStatus → ℕ
status_code created = 0
status_code accepted = 1
status_code pending_next_open = 2
status_code partially_filled = 3
status_code filled = 4
status_code cancelled = 5
status_code rejected = 6

-- `a == b` on statuses.
abbrev pub status_eq : OrderStatus → OrderStatus → Bool
status_eq a b = status_code a == status_code b

-- `status in history`
abbrev pub in_history : OrderStatus → List OrderStatus → Bool
in_history status = any_of (status_eq status)

pub record PaperOrder : Type 0 where
  pub order_id : ℕ
  pub final_decision_id : ℕ
  pub decision_id : ℕ
  pub run_id : ℕ
  pub portfolio_id : ℕ
  pub symbol : ℕ
  pub side : OrderSide
  pub quantity : ℕ
  pub status : OrderStatus
  pub execution_policy : ExecutionPolicy
  pub filled_quantity : ℕ
  pub remaining_quantity : ℕ
  pub average_fill_price_inr : ℕ
  pub gross_value_inr : ℕ
  pub total_cost_inr : ℕ
  pub total_slippage_inr : ℕ
  pub slippage_bps : ℕ
  pub rejection_reason : Option RejectionReason
  pub status_history : List OrderStatus
  pub signal_trade_date : Option ℕ
  pub scheduled_fill_session : Option ScheduledFillSession
  pub filled_trade_date : Option ℕ
  pub submitted_at : ℕ
  pub updated_at : ℕ

pub record PaperFill : Type 0 where
  pub fill_id : ℕ
  pub order_id : ℕ
  pub final_decision_id : ℕ
  pub run_id : ℕ
  pub portfolio_id : ℕ
  pub symbol : ℕ
  pub trade_date : ℕ
  pub side : OrderSide
  pub quantity : ℕ
  pub reference_price_inr : ℕ
  pub fill_price_inr : ℕ
  pub gross_value_inr : ℕ
  pub brokerage_inr : ℕ
  pub exchange_txn_charge_inr : ℕ
  pub tax_levy_inr : ℕ
  pub cost_inr : ℕ
  pub slippage_bps : ℕ
  pub slippage_inr : ℕ
  pub fill_sequence : ℕ
  pub filled_at : ℕ

pub record PaperPosition : Type 0 where
  pub run_id : ℕ
  pub portfolio_id : ℕ
  pub symbol : ℕ
  pub quantity : ℕ
  pub average_cost_inr : ℕ
  pub last_price_inr : ℕ
  pub market_value_inr : ℕ
  pub realized_pnl_inr : ℤ
  pub unrealized_pnl_inr : ℤ
  pub updated_at : ℕ

pub record PaperAccount : Type 0 where
  pub account_id : ℕ
  pub run_id : ℕ
  pub portfolio_id : ℕ
  pub starting_cash_inr : ℤ
  pub available_cash_inr : ℤ
  pub reserved_cash_inr : ℕ
  pub realized_pnl_inr : ℤ
  pub unrealized_pnl_inr : ℤ
  pub gross_exposure_inr : ℕ
  pub equity_inr : ℤ
  pub updated_at : ℕ

pub record NextOpenSettlementOrderDetail : Type 0 where
  pub order_id : ℕ
  pub symbol : ℕ
  pub side : OrderSide
  pub signal_trade_date : Option ℕ
  pub execution_trade_date : Option ℕ
  pub reference_price_inr : Option ℕ
  pub fill_price_inr : Option ℕ
  pub quantity : ℕ
  pub status : OrderStatus
  pub rejection_reason : Option RejectionReason
  pub outcome_reason : Option OutcomeReason

pub record NextOpenSettlementSummary : Type 0 where
  pub portfolio_id : ℕ
  pub run_id : ℕ
  pub settled : ℕ
  pub rejected : ℕ
  pub still_pending : ℕ
  pub skipped : ℕ
  pub details : List NextOpenSettlementOrderDetail

-- The ids that are made by hashing their arguments with `stable_id`; a record of functions stands for
-- the hashes. `risk_review_id` gets the ids of the reports in order.
pub record IdScheme : Type 0 where
  pub paper_account_id : (portfolio_id run_id : ℕ) → ℕ
  pub paper_order_id : (final_decision_id decision_id quantity : ℕ) → ℕ
  pub decision_id_for_proposal : (run_id symbol proposal_id : ℕ) → ℕ
  pub risk_review_id : (run_id symbol proposal_id : ℕ) → (source_report_ids : List ℕ) → ℕ
  pub final_decision_id : (run_id symbol proposal_id risk_check_id : ℕ) → ℕ
  pub paper_fill_id : (order_id fill_sequence quantity reference_price : ℕ) → ℕ
