-- ===== src/Tests/Broker.antt =====
-- The theorems on execution and the broker at the sample inputs.
use taurus_agent.Broker.State.Posted.{IsPosted}
use taurus_agent.Broker.State.Drift.{IsPriced}
use taurus_agent.Base.{
  err, constraint_violated, ◌∷◌, suc, ◌*◌, ◌<◌, length, arith, ◌==◌, Bool-cases, inl, inr, ℕ, ◌+◌,
  ◌≤◌, ◌≡◌, ◌↔◌, refl, [], none, ok, sum_by, All,
}
use taurus_agent.Base.Int.{pos}
use taurus_agent.Money.{rate_unit}
use taurus_agent.Execution.{OrderSide, immediate, next_open, PaperOrder, PaperFill, IsValidSettings}
use taurus_agent.Execution.Costs.{CostBreakdown, calculate, total_inr}
use taurus_agent.Execution.Costs.Bounds.{total_bps, calculate_bounds}
use taurus_agent.Execution.Slippage.{fill_price}
use taurus_agent.Execution.Slippage.Bounds.{exact_price, IsAdverse, fill_price_bounds}
use taurus_agent.Risk.{buy, exit}
use taurus_agent.Store.{Session}
use taurus_agent.Store.Queries.{list_fills_by_portfolio}
use taurus_agent.Broker.State.{rebuild_state_from_fills, replay, opening_book}
use taurus_agent.Broker.State.Ledger.{Shows, post_all, opening_ledger, rebuild-Shows}
use taurus_agent.Broker.State.Drift.{Within, total_slack, book_value, replay_drift}
use taurus_agent.Broker.Fills.{FillRequest, build_fills, fill_plan}
use taurus_agent.Broker.Fills.Plan.{fill_plan_parts}
use taurus_agent.Broker.Fills.Built.{build_fills_carry}
use taurus_agent.Broker.Affordable.{affordable_quantity}
use taurus_agent.Broker.Affordable.Optimal.{Affords, affordable_quantity_optimal}
use taurus_agent.Store.Checked.{IsChecked}
use taurus_agent.Broker.Place.{place_unchecked, place_order}
use taurus_agent.Broker.Place.Decide.{validate_decision}
use taurus_agent.Broker.Place.Guard.{IsRoutable, validate_decision_iff}
use taurus_agent.Broker.Place.Accounted.{
  IsAccounted, place_order_accounts, IsLimited, place_order-IsLimited,
}
use taurus_agent.Broker.Place.Rerun.{place_order_rerun}
use taurus_agent.Broker.Place.Total.{place_order-IsChecked}
use taurus_agent.Broker.Settle.{
  settle_unchecked, settle_pending_next_open_orders, settle_row, start, Progress,
}
use taurus_agent.Broker.Settle.Outcome.{RowDone}
use taurus_agent.Broker.Settle.Rounds.{settle_row_outcome}
use taurus_agent.Broker.Settle.Loop.{IsTallied, settle_tally}
use taurus_agent.Broker.Settle.Total.{HasPricedCandles, settle-IsChecked}
use taurus_agent.Broker.Place.Total.{IsPricedCandle}
use taurus_agent.Broker.Cancel.{cancel_order}
use taurus_agent.Broker.Cancel.Laws.{IsCancelled, cancel_order_final}
use taurus_agent.Tests.Samples.{settings, ids, session, decision}
use taurus_agent.Tests.Runs.{
  program, value_of, no_order, bought, exited, waiting, next_day, no_summary, settled,
}

abbrev valid : IsValidSettings settings
valid = record {
  threshold = omega arith;
  first_fill_pos = omega arith;
  first_fill_lt = omega arith;
}

place_order_accounts_example :
    IsAccounted ids settings bought.1 (decision 2 7 exit 60 0) immediate none none exited.0 exited.1
unfolding program bought exited
place_order_accounts_example =
    place_order_accounts ids settings bought.1 (decision 2 7 exit 60 0) immediate none none valid
      refl

place_order-IsLimited_example :
    IsLimited ids settings bought.1 (decision 2 7 exit 60 0) immediate none none exited.0
unfolding program bought exited
place_order-IsLimited_example =
    place_order-IsLimited ids settings bought.1 (decision 2 7 exit 60 0) immediate none none valid
      refl

place_order_rerun_example :
    place_order ids settings exited.1 (decision 2 7 exit 60 0) immediate none none
    ≡ ok (exited.0, exited.1)
unfolding program bought exited
place_order_rerun_example =
    place_order_rerun ids settings bought.1 (decision 2 7 exit 60 0) immediate none none valid refl

settle_tally_example : IsTallied 1 none next_day settled.0 settled.1
unfolding program waiting next_day no_summary settled
settle_tally_example = settle_tally ids settings next_day 1 3 20_000 none (tt, tt) refl

priced :
    (n m k : ℕ)
    → IsPricedCandle (record { trade_date = n; open_price = suc m; close_price = suc k })
priced n m k = record { open_pos = omega arith; close_pos = omega arith }

later_priced : HasPricedCandles next_day
unfolding program waiting next_day
later_priced symbol = elim (Bool-cases (symbol == 7)) [
  | inl seven ↦ rw seven (priced _ _ _, (priced _ _ _, (priced _ _ _, tt)))
  | inr other ↦ rw other tt
]

settle-IsChecked_example :
    IsChecked
      (settle_unchecked ids settings next_day 1 3 20_000 none)
      (settle_pending_next_open_orders ids settings next_day 1 3 20_000 none)
unfolding program waiting next_day
settle-IsChecked_example =
    settle-IsChecked ids settings next_day 1 3 20_000 none 100_000_000 (omega arith) refl refl
      (tt, tt) later_priced

routable : IsRoutable settings (decision 3 7 buy 10 0) OrderSide.buy
routable = record {
  not_live = refl;
  paper = refl;
  approved = refl;
  sendable = refl;
  positive = omega arith;
  profile = refl;
  trades = tt;
}

-- The account of another portfolio holds the run.
abbrev taken : Session
taken = record session {
  accounts =
      record {
        account_id = 99;
        run_id = 3;
        portfolio_id = 2;
        starting_cash_inr = pos 0;
        available_cash_inr = pos 0;
        reserved_cash_inr = 0;
        realized_pnl_inr = pos 0;
        unrealized_pnl_inr = pos 0;
        gross_exposure_inr = 0;
        equity_inr = pos 0;
        updated_at = 1;
      }
      ∷ [];
}

run_taken :
    place_order ids settings taken (decision 3 7 buy 10 0) next_open none none
    ≡ err constraint_violated
unfolding program
run_taken = refl

place_order-IsChecked_example :
    IsChecked
      (place_unchecked ids settings session (decision 3 7 buy 10 0) next_open none none)
      (place_order ids settings session (decision 3 7 buy 10 0) next_open none none)
unfolding program
place_order-IsChecked_example =
    place_order-IsChecked ids settings session (decision 3 7 buy 10 0) next_open none none
      OrderSide.buy 100_000_000 valid (omega arith) routable refl
      (record { open_pos = omega arith; close_pos = omega arith })

rebuild-Shows_example :
    let fills = list_fills_by_portfolio exited.1 1 in
    Shows
      (rebuild_state_from_fills exited.1 3 1 100_000_000)
      (post_all (opening_ledger 100_000_000) fills)
    × IsPosted (λ f. f.quantity) 1 exited.1.fills fills
rebuild-Shows_example = rebuild-Shows (λ f. f.quantity) exited.1 3 1 100_000_000

replay_drift_example :
    let book = opening_book 3 1 100_000_000 in
    Within
      (total_slack book bought.1.fills)
      (book_value book)
      (book_value (replay book bought.1.fills))
unfolding program bought
replay_drift_example =
    replay_drift (opening_book 3 1 100_000_000) bought.1.fills
      ((refl, omega arith), tt, ((refl, omega arith), tt, tt))

affordable_quantity_optimal_example :
    Affords OrderSide.buy 60 7 bought.1.fills
      (pos 40_000_000)
      []
      (affordable_quantity OrderSide.buy 60 bought.1.fills (pos 40_000_000) [] 7)
affordable_quantity_optimal_example =
    affordable_quantity_optimal OrderSide.buy 60 7 bought.1.fills (pos 40_000_000) []

abbrev opened : Progress
opened = start next_day (opening_book 3 1 100_000_000)

after_row : Progress
unfolding program
after_row = value_of opened (settle_row ids settings 3 20_000 opened waiting.0)

settle_row_outcome_example : RowDone waiting.0 opened after_row
unfolding program waiting next_day after_row
settle_row_outcome_example = settle_row_outcome ids settings 3 20_000 opened waiting.0 refl

validate_decision_iff_example :
    (validate_decision settings (decision 2 7 exit 60 0) ≡ ok OrderSide.sell)
    ↔ IsRoutable settings (decision 2 7 exit 60 0) OrderSide.sell
validate_decision_iff_example =
    validate_decision_iff settings (decision 2 7 exit 60 0) OrderSide.sell

fill_plan_parts_example :
    (sum_by (λ q. q) (fill_plan settings 120) ≡ 120)
    × All (λ q. 1 ≤ q) (fill_plan settings 120)
    × (length (fill_plan settings 120) ≤ 2)
fill_plan_parts_example = fill_plan_parts settings 120 valid

abbrev request : FillRequest
request = record {
  decision = decision 1 7 buy 60 0;
  side = OrderSide.buy;
  order_id = 5;
  timestamp = 5_000;
  open_price = 1_010_000;
  close_price = 1_020_000;
  trade_date = 11;
}

abbrev IsCarried : PaperFill → Type 0
IsCarried f =
    (f.final_decision_id ≡ 1)
    × (f.order_id ≡ 5)
    × (f.symbol ≡ 7)
    × (f.side ≡ OrderSide.buy)
    × IsPriced f

build_fills_carry_example :
    (sum_by (λ f. f.quantity) (value_of [] (build_fills ids settings request 60)) ≡ 60)
    × All IsCarried (value_of [] (build_fills ids settings request 60))
unfolding program
build_fills_carry_example = build_fills_carry ids settings request 60 valid refl

cancelled_waiting : PaperOrder × Session
unfolding program waiting
cancelled_waiting = value_of (no_order, session) (cancel_order waiting.1 3_000_010)

cancel_order_final_example : IsCancelled waiting.1 3_000_010 cancelled_waiting.0 cancelled_waiting.1
unfolding program waiting cancelled_waiting
cancel_order_final_example = cancel_order_final waiting.1 3_000_010 refl

fill_price_bounds_example :
    (p : ℕ) × (fill_price settings 1_000_000 OrderSide.sell ≡ ok (pos p))
    × IsAdverse OrderSide.sell 1_000_000 p
    × (2 * (p * rate_unit) ≤ 2 * exact_price 50_000 OrderSide.sell 1_000_000 + rate_unit)
    × (2 * exact_price 50_000 OrderSide.sell 1_000_000 < 2 * (p * rate_unit) + rate_unit)
fill_price_bounds_example = fill_price_bounds settings 999_999 OrderSide.sell (omega arith)

calculate_bounds_example :
    (c : CostBreakdown) × (calculate settings (pos 60_000_000) ≡ ok c)
    × (2 * (total_inr c * rate_unit) ≤ 2 * (60_000_000 * total_bps settings) + 3 * rate_unit)
    × (2 * (60_000_000 * total_bps settings) < 2 * (total_inr c * rate_unit) + 3 * rate_unit)
calculate_bounds_example = calculate_bounds settings 60_000_000
