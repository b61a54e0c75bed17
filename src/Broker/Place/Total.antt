-- ===== src/Broker/Place/Total.antt =====
-- `place_order` raises for no routable decision.
use taurus_agent.Base.{
  ℕ, ◌*◌, ◌≤◌, ◌≡◌, refl, List, Option, none, some, ◌==◌, Bool-cases, inl, inr, ok, Returns,
  >>=-Returns,
}
use taurus_agent.Base.Int.{ℤ}
use taurus_agent.Money.{rate_unit}
use taurus_agent.Execution.{
  OrderSide, ExecutionPolicy, immediate, next_open, PaperFill, Settings, IsValidSettings, IdScheme,
}
use taurus_agent.Risk.{FinalDecision}
use taurus_agent.Store.{Session, Candle}
use taurus_agent.Store.Checked.{IsChecked, checked-IsChecked}
use taurus_agent.Store.Writes.{has_rows, store_pending_next_open_order}
use taurus_agent.Store.Queries.{resolve_runtime_profile}
use taurus_agent.Broker.State.{account_and_positions}
use taurus_agent.Broker.Fills.{build_fills}
use taurus_agent.Broker.Fills.Total.{build_fills-Returns}
use taurus_agent.Broker.Orders.{pending_next_open_order}
use taurus_agent.Broker.Place.{place_order, place_unchecked, place_on}
use taurus_agent.Broker.Place.Decide.{execution_quantity}
use taurus_agent.Broker.Place.Guard.{IsRoutable, validate_decision_iff}
use taurus_agent.Broker.Place.Outcome.{
  Call, fill_request, marked, pending_next_open_quantity, affordable_fills, place_affordable,
  place_immediate, place_next_open, place_by_policy, place_with_candle,
}
use taurus_agent.Broker.Place.Accounted.{cleared, quote}

-- The prices of a candle are at least a tick.
pub record IsPricedCandle (candle : Candle) : Type 0 where
  pub open_pos : 1 ≤ candle.open_price
  pub close_pos : 1 ≤ candle.close_price

module _ (ids : IdScheme) (s : Settings) (valid : IsValidSettings s)
    (small : 2 * s.slippage_bps ≤ rate_unit) (call : Call) (candle : Candle)
    (priced : IsPricedCandle candle) where
  fills_at :
      (n quantity price : ℕ)
      → 1 ≤ price
      → Returns (build_fills ids s (fill_request ids s call candle n price) quantity)
  fills_at n quantity price h =
      build_fills-Returns ids s small (fill_request ids s call candle n price) quantity valid h
        priced.close_pos

  pending_quantity-Returns :
      (quantity : ℕ) → Returns (pending_next_open_quantity ids s call candle quantity)
  unfolding pending_next_open_quantity
  pending_quantity-Returns quantity =
      >>=-Returns
        (build_fills ids s (fill_request ids s call candle quantity candle.close_price) quantity) _
        (fills_at quantity quantity candle.close_price priced.close_pos)
        (λ preview e. elim (Bool-cases (has_rows preview)) [
          | inl rows ↦ rw rows (_, refl)
          | inr no_rows ↦ rw no_rows (_, refl)
        ])

  affordable_fills-Returns :
      (quantity affordable : ℕ) (fills : List PaperFill)
      → Returns (affordable_fills ids s call candle quantity affordable fills)
  unfolding affordable_fills
  affordable_fills-Returns quantity affordable fills = elim (Bool-cases (affordable == quantity)) [
    | inl same ↦ rw same (fills, refl)
    | inr fewer ↦ rw fewer (fills_at affordable affordable candle.open_price priced.open_pos)
  ]

  store_pending-Returns :
      (db : Session) (affordable : ℕ)
      → let rows =
          account_and_positions ids (marked call.decision candle call.book) call.timestamp in
        Returns (
          store_pending_next_open_order db
            (pending_next_open_order ids s call.decision call.side affordable call.timestamp
              candle.trade_date)
            rows.0
            rows.1)
  unfolding store_pending_next_open_order pending_next_open_order
  store_pending-Returns db affordable = (_, refl)

  next_open-Returns :
      (db : Session) (quantity : ℕ) → Returns (place_next_open ids s db call candle quantity)
  unfolding place_next_open
  next_open-Returns db quantity =
      >>=-Returns (pending_next_open_quantity ids s call candle quantity) _
        (pending_quantity-Returns quantity)
        (λ affordable e. elim (Bool-cases (affordable == 0)) [
          | inl nothing ↦ rw nothing (_, refl)
          | inr some_units ↦
              rw some_units
                (>>=-Returns _ _ (store_pending-Returns db affordable) (λ stored e. (_, refl)))
        ])

  affordable-Returns :
      (db : Session) (quantity affordable : ℕ) (fills : List PaperFill)
      → Returns (place_affordable ids s db call candle quantity affordable fills)
  unfolding place_affordable
  affordable-Returns db quantity affordable fills = elim (Bool-cases (affordable == 0)) [
    | inl nothing ↦ rw nothing (_, refl)
    | inr some_units ↦ rw some_units (
        >>=-Returns (affordable_fills ids s call candle quantity affordable fills) _
          (affordable_fills-Returns quantity affordable fills) (λ final e. (_, refl)))
  ]

  immediate-Returns :
      (db : Session) (quantity : ℕ) → Returns (place_immediate ids s db call candle quantity)
  unfolding place_immediate
  immediate-Returns db quantity =
      >>=-Returns
        (build_fills ids s (fill_request ids s call candle quantity candle.open_price) quantity) _
        (fills_at quantity quantity candle.open_price priced.open_pos)
        (λ fills e. elim (Bool-cases (has_rows fills)) [
          | inl rows ↦ rw rows (affordable-Returns db quantity _ fills)
          | inr no_rows ↦ rw no_rows (_, refl)
        ])

  policy-Returns :
      (policy : ExecutionPolicy) (db : Session) (quantity : ℕ)
      → Returns (place_by_policy ids s db call policy candle quantity)
  unfolding place_by_policy
  policy-Returns next_open db quantity = next_open-Returns db quantity
  policy-Returns immediate db quantity = immediate-Returns db quantity

  candle-Returns : (db : Session) → Returns (place_with_candle ids s db call candle)
  unfolding place_with_candle
  candle-Returns db =
      let quantity = execution_quantity call.decision call.book candle.close_price in
      elim (Bool-cases (quantity == 0)) [
        | inl nothing ↦ rw nothing (_, refl)
        | inr some_units ↦ rw some_units (policy-Returns call.policy db quantity)
      ]

-- The candle is priced, where there is one.
abbrev pub IsPricedQuote : Option Candle → Type 0
IsPricedQuote none = Unit
IsPricedQuote (some candle) = IsPricedCandle candle

on-Returns :
    (ids : IdScheme) (s : Settings) (call : Call) (o : Option Candle) (db : Session)
    → IsValidSettings s
    → 2 * s.slippage_bps ≤ rate_unit
    → IsPricedQuote o
    → Returns (place_on ids s db call o)
on-Returns ids s call none db valid small priced = (_, refl)
on-Returns ids s call (some candle) db valid small priced =
    candle-Returns ids s valid small call candle priced db

-- A routable decision of a profile that is active with a corpus gets an order, on every policy,
-- where the prices of the symbol's latest candle are at least a tick and slippage is at most half of
-- the price, and where the database takes the rows that the call would store: orders with an id and
-- a final decision of their own, fills with an id and a place in their order of their own, one
-- account for a run and one position for a run and symbol, and no decision, order or instrument that
-- these refer to missing. Where the rows are not so, the call raises the violated constraint.
pub place_order-IsChecked :
    (ids : IdScheme) (s : Settings) (db : Session) (decision : FinalDecision)
    (policy : ExecutionPolicy) (at : Option ℕ) (cash : Option ℤ) (side : OrderSide) (corpus : ℕ)
    → IsValidSettings s
    → 2 * s.slippage_bps ≤ rate_unit
    → IsRoutable s decision side
    → resolve_runtime_profile db decision.portfolio_id ≡ ok corpus
    → IsPricedQuote (quote db decision)
    → IsChecked
        (place_unchecked ids s db decision policy at cash)
        (place_order ids s db decision policy at cash)
unfolding place_order place_unchecked
place_order-IsChecked ids s db decision policy at cash side corpus valid small routable funded
      priced =
    checked-IsChecked (place_unchecked ids s db decision policy at cash) (
      rw ((validate_decision_iff s decision side).1 routable, funded)
        (on-Returns ids s _ (quote db decision) (cleared db decision) valid small priced))
