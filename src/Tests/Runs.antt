-- ===== src/Tests/Runs.antt =====
-- Runs of the broker at fixed inputs.
use taurus_agent.Base.{◌≡◌, refl, List, [], ◌∷◌, none, map, Result, ok, err}
use taurus_agent.Base.Int.{ℤ, pos, negsuc, ◌+ℤ◌, ◌-ℤ◌, ◌*ℤ◌}
use taurus_agent.Money.{round_half_up, round_signed}
use taurus_agent.Money.Context.{places, round_context, scale_amount, round_half_even}
use taurus_agent.Execution.{
  PaperOrder, immediate, next_open, OrderStatus, filled, partially_filled, cancelled,
  NextOpenSettlementSummary,
}
use taurus_agent.Execution.Costs.{total_inr, levy, calculate}
use taurus_agent.Execution.Slippage.{fill_price, slippage_value}
use taurus_agent.Risk.{buy, exit}
use taurus_agent.Store.{Session}
use taurus_agent.Store.Constraints.{
  orders_meet, fills_meet, positions_meet, accounts_meet, meets_constraints, flush,
}
use taurus_agent.Store.Writes.{
  delete_execution_for_final_decision, replace_account_state, replace_order_execution,
  store_rejected_order, store_pending_next_open_order, replace_pending_next_open_order,
}
use taurus_agent.Store.Queries.{
  latest_candle, first_candle_after_signal, list_fills_by_portfolio, list_pending_next_open_orders,
  latest_account_by_portfolio, latest_open_positions_by_portfolio, resolve_runtime_profile,
}
use taurus_agent.Broker.State.{
  apply_buy, realized_gain, apply_sell, apply_side, apply_fill, mark_prices, mark_latest,
  mark_latest_open, replay, rebuild_state_from_fills, gross_exposure, open_positions,
  position_model, account_and_positions,
}
use taurus_agent.Broker.Fills.{
  first_fill, fill_plan, amounts_at, fill_amounts, build_fill, build_from, build_fills,
  build_next_open_fill,
}
use taurus_agent.Broker.Affordable.{scaled_debit, count_down, affordable_quantity}
use taurus_agent.Broker.Orders.{
  filled_order, pending_next_open_order, rejected_order, terminal_pending_order,
}
use taurus_agent.Broker.Place.{place_unchecked, place_order}
use taurus_agent.Broker.Place.Decide.{side_for_action, validate_decision, execution_quantity}
use taurus_agent.Broker.Place.Outcome.{
  pending_next_open_quantity, affordable_fills, place_rejected, place_without_candle,
  place_next_open, settle_fills, place_affordable, place_immediate, place_by_policy,
  place_with_candle,
}
use taurus_agent.Broker.Settle.{
  settlement_detail, reject_row, fill_row, execute_row, settle_on, settle_signed, settle_row,
  settle_rows, finish, settle_pending_next_open_orders, settle_unchecked,
}
use taurus_agent.Broker.Cancel.{cancelled_order, cancel_order, get_order}
use taurus_agent.Tests.Samples.{settings, ids, session, decision, later_candles}

-- All that a run computes with.
unfoldable pub program : Unit {0}
unfolding round_half_up round_signed places round_context scale_amount round_half_even total_inr
    levy calculate fill_price slippage_value delete_execution_for_final_decision
    replace_account_state replace_order_execution store_rejected_order store_pending_next_open_order
    replace_pending_next_open_order latest_candle first_candle_after_signal list_fills_by_portfolio
    list_pending_next_open_orders latest_account_by_portfolio latest_open_positions_by_portfolio
    resolve_runtime_profile apply_buy realized_gain apply_sell apply_side apply_fill mark_prices
    mark_latest mark_latest_open replay rebuild_state_from_fills gross_exposure open_positions
    position_model account_and_positions first_fill fill_plan amounts_at fill_amounts build_fill
    build_from build_fills build_next_open_fill scaled_debit count_down affordable_quantity
    filled_order pending_next_open_order rejected_order terminal_pending_order place_unchecked
    place_order settle_unchecked orders_meet fills_meet positions_meet accounts_meet
    meets_constraints flush side_for_action validate_decision execution_quantity
    pending_next_open_quantity affordable_fills place_rejected place_without_candle place_next_open
    settle_fills place_affordable place_immediate place_by_policy place_with_candle
    settlement_detail reject_row fill_row execute_row settle_on settle_signed settle_row settle_rows
    finish settle_pending_next_open_orders cancelled_order cancel_order get_order ◌+ℤ◌ ◌-ℤ◌ ◌*ℤ◌
program = tt

-- An order that no run returns.
abbrev pub no_order : PaperOrder
no_order = record {
  order_id = 0;
  final_decision_id = 0;
  decision_id = 0;
  run_id = 0;
  portfolio_id = 0;
  symbol = 0;
  side = taurus_agent.Execution.OrderSide.buy;
  quantity = 0;
  status = filled;
  execution_policy = immediate;
  filled_quantity = 0;
  remaining_quantity = 0;
  average_fill_price_inr = 0;
  gross_value_inr = 0;
  total_cost_inr = 0;
  total_slippage_inr = 0;
  slippage_bps = 0;
  rejection_reason = none;
  status_history = [];
  signal_trade_date = none;
  scheduled_fill_session = none;
  filled_trade_date = none;
  submitted_at = 0;
  updated_at = 0;
}

-- The value of a run.
abbrev pub value_of : {A : Type 0} → A → Result A → A
value_of default (ok a) = a
value_of default (err e) = default

-- A purchase of 60 units at once, in two fills.
unfoldable pub bought : PaperOrder × Session
unfolding program
bought =
    value_of (no_order, session)
      (place_order ids settings session (decision 1 7 buy 60 0) immediate none none)

-- An exit of them.
unfoldable pub exited : PaperOrder × Session
unfolding program
exited =
    value_of (no_order, session)
      (place_order ids settings bought.1 (decision 2 7 exit 60 0) immediate none none)

-- A purchase for the next open, and its settlement.
unfoldable pub waiting : PaperOrder × Session
unfolding program
waiting =
    value_of (no_order, session)
      (place_order ids settings session (decision 3 7 buy 10 0) next_open none none)

-- The session of the next day.
unfoldable pub next_day : Session
unfolding waiting
next_day = record (waiting.1) { candles = later_candles }

unfoldable pub no_summary : NextOpenSettlementSummary
no_summary = record {
  portfolio_id = 0;
  run_id = 0;
  settled = 0;
  rejected = 0;
  still_pending = 0;
  skipped = 0;
  details = [];
}

unfoldable pub settled : NextOpenSettlementSummary × Session
unfolding program no_summary
settled =
    value_of (no_summary, session)
      (settle_pending_next_open_orders ids settings next_day 1 3 20_000 none)

-- A purchase whose price at the close was lower than at the open.
overdrawn : PaperOrder × Session
unfolding program
overdrawn =
    value_of (no_order, session)
      (place_order ids settings session (decision 4 8 buy 100 0) immediate none none)

cash_of : Session → List ℤ
cash_of db = map (λ a. a.available_cash_inr) db.accounts

bought_whole : (bought.0.status ≡ filled) × (bought.0.filled_quantity ≡ 60)
unfolding program bought
bought_whole = (refl, refl)

exited_whole : (exited.0.status ≡ filled) × (exited.0.filled_quantity ≡ 60)
unfolding program bought exited
exited_whole = (refl, refl)

waiting_open : (waiting.0.status ≡ OrderStatus.pending_next_open) × (waiting.0.quantity ≡ 10)
unfolding program waiting
waiting_open = (refl, refl)

settled_one : (settled.0.settled ≡ 1) × (cash_of settled.1 ≡ pos 89_690_366 ∷ [])
unfolding program waiting next_day settled no_summary cash_of
settled_one = (refl, refl)

-- The preview of 100 units has fills at the open and at the close; the order for fewer units fills
-- whole at the open, and takes more cash than there is.
overdrawn_cash : cash_of overdrawn.1 ≡ negsuc 22_614_563 ∷ []
unfolding program overdrawn cash_of
overdrawn_cash = refl
