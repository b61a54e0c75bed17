-- ===== src/Broker/Orders.antt =====
-- The orders that the broker makes: `_filled_order`, `_pending_next_open_order`, `_rejected_order`
-- and `_terminal_pending_order`.
use taurus_agent.Base.{
  ℕ, ◌+◌, ◌-◌, List, [], ◌∷◌, ◌++◌, Option, none, some, ◌==◌, ltb, if◌then◌else◌, sum_by, length,
}
use taurus_agent.Money.{round_half_up}
use taurus_agent.Execution.{
  OrderSide, OrderStatus, created, accepted, pending_next_open, partially_filled, filled, rejected,
  ExecutionPolicy, ScheduledFillSession, RejectionReason, PaperOrder, PaperFill, Settings, IdScheme,
  in_history,
}
use taurus_agent.Risk.{FinalDecision}

module _ (ids : IdScheme) (s : Settings) (decision : FinalDecision) (side : OrderSide) where
  -- `_filled_order`; `order_id` is that of the first fill.
  unfoldable pub filled_order :
      (order_id requested_quantity : ℕ) → List PaperFill → (timestamp : ℕ) → PaperOrder
  filled_order order_id requested_quantity fills timestamp =
      let filled_quantity = sum_by (λ f. f.quantity) fills in
      let gross_value = sum_by (λ f. f.gross_value_inr) fills in
      let status = if filled_quantity == requested_quantity then filled else partially_filled in
      record {
        order_id = order_id;
        final_decision_id = decision.final_decision_id;
        decision_id = decision.decision_id;
        run_id = decision.run_id;
        portfolio_id = s.profile_id;
        symbol = decision.symbol;
        side = side;
        quantity = requested_quantity;
        status = status;
        execution_policy = ExecutionPolicy.immediate;
        filled_quantity = filled_quantity;
        remaining_quantity = requested_quantity - filled_quantity;
        average_fill_price_inr =
            if filled_quantity == 0 then 0 else round_half_up gross_value filled_quantity;
        gross_value_inr = gross_value;
        total_cost_inr = sum_by (λ f. f.cost_inr) fills;
        total_slippage_inr = sum_by (λ f. f.slippage_inr) fills;
        slippage_bps = s.slippage_bps;
        rejection_reason = none;
        status_history =
            created
            ∷ accepted
            ∷ ((if ltb 1 (length fills) then partially_filled ∷ [] else []) ++ status ∷ []);
        signal_trade_date = none;
        scheduled_fill_session = none;
        filled_trade_date = none;
        submitted_at = timestamp;
        updated_at = timestamp + length fills;
      }

  -- An order without fills.
  abbrev pub unfilled_order :
      (quantity timestamp : ℕ)
      → OrderStatus
      → ExecutionPolicy
      → Option RejectionReason
      → List OrderStatus
      → Option ℕ
      → Option ScheduledFillSession
      → PaperOrder
  unfilled_order quantity timestamp status policy reason history signal scheduled = record {
    order_id = ids.paper_order_id decision.final_decision_id decision.decision_id quantity;
    final_decision_id = decision.final_decision_id;
    decision_id = decision.decision_id;
    run_id = decision.run_id;
    portfolio_id = s.profile_id;
    symbol = decision.symbol;
    side = side;
    quantity = quantity;
    status = status;
    execution_policy = policy;
    filled_quantity = 0;
    remaining_quantity = quantity;
    average_fill_price_inr = 0;
    gross_value_inr = 0;
    total_cost_inr = 0;
    total_slippage_inr = 0;
    slippage_bps = s.slippage_bps;
    rejection_reason = reason;
    status_history = history;
    signal_trade_date = signal;
    scheduled_fill_session = scheduled;
    filled_trade_date = none;
    submitted_at = timestamp;
    updated_at = timestamp;
  }

  -- `_pending_next_open_order`
  unfoldable pub pending_next_open_order : (quantity timestamp signal_trade_date : ℕ) → PaperOrder
  pending_next_open_order quantity timestamp signal_trade_date =
      unfilled_order quantity timestamp pending_next_open ExecutionPolicy.next_open none
        (created ∷ accepted ∷ pending_next_open ∷ []) (some signal_trade_date)
        (some ScheduledFillSession.next_open)

  -- The order that `_rejected_order` makes.
  unfoldable pub rejected_order :
      (quantity timestamp : ℕ) → RejectionReason → ExecutionPolicy → Option ℕ → PaperOrder
  rejected_order quantity timestamp reason policy signal_trade_date =
      unfilled_order quantity timestamp rejected policy (some reason) (created ∷ rejected ∷ [])
        signal_trade_date none

-- The amounts that `_terminal_pending_order` takes from a fill, or zero.
abbrev pub fill_field : (PaperFill → ℕ) → Option PaperFill → ℕ
fill_field field none = 0
fill_field field (some fill) = field fill

-- `_terminal_pending_order`
unfoldable pub terminal_pending_order :
    PaperOrder
    → OrderStatus
    → (updated_at filled_trade_date : ℕ) → Option PaperFill
    → Option RejectionReason
    → PaperOrder
terminal_pending_order order status updated_at filled_trade_date fill reason = record order {
  status = status;
  filled_quantity = fill_field (λ f. f.quantity) fill;
  remaining_quantity = order.quantity - fill_field (λ f. f.quantity) fill;
  average_fill_price_inr = fill_field (λ f. f.fill_price_inr) fill;
  gross_value_inr = fill_field (λ f. f.gross_value_inr) fill;
  total_cost_inr = fill_field (λ f. f.cost_inr) fill;
  total_slippage_inr = fill_field (λ f. f.slippage_inr) fill;
  rejection_reason = reason;
  status_history =
      if in_history status order.status_history
      then order.status_history
      else order.status_history ++ status ∷ [];
  filled_trade_date = some filled_trade_date;
  updated_at = updated_at;
}
