-- ===== src/Broker/Fills.antt =====
-- `_fill_plan`, `_build_fills` and `_build_next_open_fill`.
pub mod Plan
pub mod Built
pub mod Total
use taurus_agent.Base.{
  ℕ, zero, suc, ◌+◌, ◌-◌, ◌*◌, ◌/◌, ◌≤◌, min, max, Bool, true, false, List, [], ◌∷◌, leb, ltb, ◌==◌,
  if◌then◌else◌, Result, ok, err, raise_if, ◌>>=◌, ◌>>◌, negative_gross, invalid_fill,
}
use taurus_agent.Base.Int.{ℤ, pos, negsuc, ◌*ℤ◌, pos_part, leb_ℤ}
use taurus_agent.Execution.{OrderSide, PaperFill, PaperOrder, Settings, IdScheme}
use taurus_agent.Execution.Costs.{CostBreakdown, calculate, total_inr}
use taurus_agent.Execution.Slippage.{fill_price, slippage_value}
use taurus_agent.Risk.{FinalDecision}

-- The first part of a large order, `int(quantity * first_fill_pct)` kept within the order.
unfoldable pub first_fill : Settings → ℕ → ℕ
first_fill s quantity = max 1 (min (quantity * s.first_fill_pct / 10_000) (quantity - 1))

-- `_fill_plan`
unfoldable pub fill_plan : Settings → ℕ → List ℕ
unfolding first_fill
fill_plan s quantity =
    if quantity == 0
    then []
    else if leb quantity s.partial_fill_threshold
    then quantity ∷ []
    else first_fill s quantity ∷ (quantity - first_fill s quantity) ∷ []

-- The amounts of one fill.
pub record FillAmounts : Type 0 where
  pub fill_price_inr : ℕ
  pub gross_value_inr : ℕ
  pub costs : CostBreakdown
  pub slippage_inr : ℕ

-- Gross value, costs and slippage of a fill at its price, as both builders compute them.
-- `PaperFill` is refused unless its price and its quantity are positive.
unfoldable pub amounts_at : Settings → (reference_price quantity : ℕ) → ℤ → Result FillAmounts
unfolding calculate slippage_value ◌*ℤ◌
amounts_at s reference_price quantity price = do
  let gross = price *ℤ pos quantity
  costs ← calculate s gross
  raise_if (leb_ℤ price (pos 0)) invalid_fill
  raise_if (quantity == 0) invalid_fill
  ok (record {
    fill_price_inr = pos_part price;
    gross_value_inr = pos_part gross;
    costs = costs;
    slippage_inr = slippage_value reference_price price quantity;
  })

unfoldable pub fill_amounts :
    Settings → OrderSide → (reference_price quantity : ℕ) → Result FillAmounts
unfolding fill_price amounts_at
fill_amounts s side reference_price quantity =
    fill_price s reference_price side >>= amounts_at s reference_price quantity

-- What `_build_fills` is called with, for one decision.
pub record FillRequest : Type 0 where
  pub decision : FinalDecision
  pub side : OrderSide
  pub order_id : ℕ
  pub timestamp : ℕ
  pub open_price : ℕ
  pub close_price : ℕ
  pub trade_date : ℕ

module _ (ids : IdScheme) (s : Settings) where
  -- One round of the loop of `_build_fills`.
  unfoldable pub build_fill : FillRequest → (sequence quantity : ℕ) → Result PaperFill
  unfolding fill_amounts total_inr
  build_fill r sequence quantity = do
    let reference_price = if sequence == 1 then r.open_price else r.close_price
    amounts ← fill_amounts s r.side reference_price quantity
    ok (record {
      fill_id = ids.paper_fill_id r.order_id sequence quantity reference_price;
      order_id = r.order_id;
      final_decision_id = r.decision.final_decision_id;
      run_id = r.decision.run_id;
      portfolio_id = s.profile_id;
      symbol = r.decision.symbol;
      trade_date = r.trade_date;
      side = r.side;
      quantity = quantity;
      reference_price_inr = reference_price;
      fill_price_inr = amounts.fill_price_inr;
      gross_value_inr = amounts.gross_value_inr;
      brokerage_inr = amounts.costs.brokerage_inr;
      exchange_txn_charge_inr = amounts.costs.exchange_txn_charge_inr;
      tax_levy_inr = amounts.costs.tax_levy_inr;
      cost_inr = total_inr amounts.costs;
      slippage_bps = s.slippage_bps;
      slippage_inr = amounts.slippage_inr;
      fill_sequence = sequence;
      filled_at = r.timestamp + sequence;
    })

  -- The loop over `enumerate(self._fill_plan(quantity), start=1)`.
  unfoldable pub build_from : FillRequest → ℕ → List ℕ → Result (List PaperFill)
  unfolding build_fill
  build_from r sequence [] = ok []
  build_from r sequence (quantity ∷ plan) = do
    fill ← build_fill r sequence quantity
    fills ← build_from r (sequence + 1) plan
    ok (fill ∷ fills)

  -- `_build_fills`
  unfoldable pub build_fills : FillRequest → ℕ → Result (List PaperFill)
  unfolding build_from fill_plan
  build_fills r quantity = build_from r 1 (fill_plan s quantity)

  -- `_build_next_open_fill`
  unfoldable pub build_next_open_fill :
      PaperOrder → (run_id quantity reference_price trade_date filled_at : ℕ) → Result PaperFill
  unfolding fill_amounts total_inr
  build_next_open_fill order run_id quantity reference_price trade_date filled_at = do
    amounts ← fill_amounts s order.side reference_price quantity
    ok (record {
      fill_id = ids.paper_fill_id order.order_id 1 quantity reference_price;
      order_id = order.order_id;
      final_decision_id = order.final_decision_id;
      run_id = run_id;
      portfolio_id = order.portfolio_id;
      symbol = order.symbol;
      trade_date = trade_date;
      side = order.side;
      quantity = quantity;
      reference_price_inr = reference_price;
      fill_price_inr = amounts.fill_price_inr;
      gross_value_inr = amounts.gross_value_inr;
      brokerage_inr = amounts.costs.brokerage_inr;
      exchange_txn_charge_inr = amounts.costs.exchange_txn_charge_inr;
      tax_levy_inr = amounts.costs.tax_levy_inr;
      cost_inr = total_inr amounts.costs;
      slippage_bps = s.slippage_bps;
      slippage_inr = amounts.slippage_inr;
      fill_sequence = 1;
      filled_at = filled_at;
    })
