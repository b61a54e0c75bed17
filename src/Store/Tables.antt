-- ===== src/Store/Tables.antt =====
-- The rows behind a database session, each table in the order of insertion. An order, fill, account
-- or position row is the pydantic model that its `payload` column holds.
use taurus_agent.Base.{ℕ, List}
use taurus_agent.Execution.{PaperOrder, PaperFill, PaperAccount, PaperPosition}

-- A daily candle of one symbol.
pub record Candle : Type 0 where
  pub trade_date : ℕ
  pub open_price : ℕ
  pub close_price : ℕ

pub data ProfileStatus : Type 0 where
  active archived : ProfileStatus

pub record Profile : Type 0 where
  pub profile_id : ℕ
  pub starting_corpus_inr : ℕ
  pub status : ProfileStatus

pub data AuditEvent : Type 0 where
  order_executed order_pending_next_open pending_next_open_order_replaced : AuditEvent
  order_rejected : AuditEvent

pub record AuditLog : Type 0 where
  pub event_type : AuditEvent
  pub order_id : ℕ
  pub final_decision_id : ℕ

pub record Session : Type 0 where
  pub orders : List PaperOrder
  pub fills : List PaperFill
  pub accounts : List PaperAccount
  pub positions : List PaperPosition
  pub audit : List AuditLog
  pub profiles : List Profile
  -- The primary keys of the final decisions and of the instruments, to which the rows refer.
  pub final_decision_ids : List ℕ
  pub instruments : List ℕ
  -- The rows of a symbol by `trade_date`, as `CandleRepository` selects them.
  pub candles : ℕ → List Candle
