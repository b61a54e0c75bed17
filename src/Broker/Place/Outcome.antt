-- ===== src/Broker/Place/Outcome.antt =====
-- The branches of `place_order` once the state is rebuilt.
use taurus_agent.Base.{ℕ, List, Option, none, some, ◌==◌, if◌then◌else◌, Result, ok, ◌>>=◌}
use taurus_agent.Base.Int.{ℤ}
use taurus_agent.Execution.{
  OrderSide, ExecutionPolicy, immediate, next_open, PaperOrder, PaperFill, Settings, IdScheme,
  RejectionReason, no_candle_data, no_executable_quantity, insufficient_cash_or_position,
  no_valid_fill,
}
use taurus_agent.Risk.{FinalDecision}
use taurus_agent.Store.{Session, Candle}
use taurus_agent.Store.Writes.{
  has_rows, replace_order_execution, store_rejected_order, store_pending_next_open_order,
}
use taurus_agent.Broker.State.{Book, replay, mark_prices, account_and_positions}
use taurus_agent.Broker.Fills.{FillRequest, build_fills}
use taurus_agent.Broker.Affordable.{affordable_quantity}
use taurus_agent.Broker.Orders.{filled_order, pending_next_open_order, rejected_order}
use taurus_agent.Broker.Place.Decide.{execution_quantity}

-- The local variables of `place_order` that its branches read.
pub record Call : Type 0 where
  pub decision : FinalDecision
  pub side : OrderSide
  pub policy : ExecutionPolicy
  pub timestamp : ℕ
  pub book : Book
  pub affordability_cash : Option ℤ

-- `candle.trade_date if execution_policy == "next_open" else None`
abbrev pub signal_date : ExecutionPolicy → Candle → Option ℕ
signal_date immediate candle = none
signal_date next_open candle = some candle.trade_date

-- `pending_affordability_cash_inr`, or the available cash.
abbrev pub spendable : Option ℤ → Book → ℤ
spendable none book = book.account.available_cash_inr
spendable (some cash) book = cash

-- The book with the symbol of the decision marked at the close.
abbrev pub marked : FinalDecision → Candle → Book → Book
marked decision candle book = record book {
  positions = mark_prices decision.symbol candle.close_price book.positions;
}

module _ (ids : IdScheme) (s : Settings) (call : Call) where
  -- The arguments of `_build_fills`.
  abbrev pub fill_request : Candle → (quantity open_price : ℕ) → FillRequest
  fill_request candle quantity open_price = record {
    decision = call.decision;
    side = call.side;
    order_id =
        ids.paper_order_id call.decision.final_decision_id call.decision.decision_id quantity;
    timestamp = call.timestamp;
    open_price = open_price;
    close_price = candle.close_price;
    trade_date = candle.trade_date;
  }

  -- `_pending_next_open_quantity`: both parts of the preview fill at the close.
  unfoldable pub pending_next_open_quantity : Candle → ℕ → Result ℕ
  pending_next_open_quantity candle quantity = do
    preview ← build_fills ids s (fill_request candle quantity candle.close_price) quantity
    if has_rows preview
        then ok (
            affordable_quantity call.side quantity preview
              (spendable call.affordability_cash call.book) call.book.positions
              call.decision.symbol)
        else ok 0

  -- The fills of the affordable quantity: the previewed ones, or new ones for fewer units.
  unfoldable pub affordable_fills :
      Candle → (quantity affordable : ℕ) → List PaperFill → Result (List PaperFill)
  affordable_fills candle quantity affordable fills =
      if affordable == quantity
      then ok fills
      else build_fills ids s (fill_request candle affordable candle.open_price) affordable

module _ (ids : IdScheme) (s : Settings) (db : Session) (call : Call) where
  -- A rejected order is stored with the account as it stands.
  unfoldable pub place_rejected :
      (quantity : ℕ) → RejectionReason → (signal_trade_date : Option ℕ) → PaperOrder × Session
  place_rejected quantity reason signal_trade_date =
      let (account, positions) = account_and_positions ids call.book call.timestamp in
      let order =
        rejected_order ids s call.decision call.side quantity call.timestamp reason call.policy
          signal_trade_date in
      (order, store_rejected_order db order account positions)

  unfoldable pub place_without_candle : PaperOrder × Session
  place_without_candle = place_rejected call.decision.approved_quantity no_candle_data none

  -- The `next_open` branch.
  unfoldable pub place_next_open : Candle → ℕ → Result (PaperOrder × Session)
  place_next_open candle quantity = do
    affordable ← pending_next_open_quantity ids s call candle quantity
    let (account, positions) =
        account_and_positions ids (marked call.decision candle call.book) call.timestamp
    let order =
        pending_next_open_order ids s call.decision call.side affordable call.timestamp
          candle.trade_date
    if affordable == 0
        then ok
            (place_rejected quantity insufficient_cash_or_position (signal_date call.policy candle))
        else store_pending_next_open_order db order account positions >>= λ stored.
            ok (order, stored)

  -- The fills are applied, and the order is stored with them and with the new account.
  unfoldable pub settle_fills :
      Candle → (order_id quantity : ℕ) → List PaperFill → PaperOrder × Session
  settle_fills candle order_id quantity fills =
      let (account, positions) =
        account_and_positions ids (marked call.decision candle (replay call.book fills))
          call.timestamp in
      let order =
        filled_order ids s call.decision call.side order_id quantity fills call.timestamp in
      (order, replace_order_execution db order fills account positions)

  -- The order for `affordable` of `quantity` units whose fills were previewed.
  unfoldable pub place_affordable :
      Candle → (quantity affordable : ℕ) → List PaperFill → Result (PaperOrder × Session)
  place_affordable candle quantity affordable fills =
      if affordable == 0
      then ok (place_rejected quantity insufficient_cash_or_position none)
      else affordable_fills ids s call candle quantity affordable fills >>= λ final. ok (
          settle_fills candle
            (ids.paper_order_id call.decision.final_decision_id call.decision.decision_id
              affordable)
            quantity final)

  -- The immediate branch.
  unfoldable pub place_immediate : Candle → ℕ → Result (PaperOrder × Session)
  place_immediate candle quantity = do
    fills ← build_fills ids s (fill_request ids s call candle quantity candle.open_price) quantity
    if has_rows fills
        then place_affordable candle quantity
            (affordable_quantity call.side quantity fills call.book.account.available_cash_inr
              call.book.positions call.decision.symbol)
            fills
        else ok (place_rejected quantity no_valid_fill none)

  -- `if execution_policy == "next_open"`
  unfoldable pub place_by_policy : ExecutionPolicy → Candle → ℕ → Result (PaperOrder × Session)
  place_by_policy next_open candle quantity = place_next_open candle quantity
  place_by_policy immediate candle quantity = place_immediate candle quantity

  unfoldable pub place_with_candle : Candle → Result (PaperOrder × Session)
  place_with_candle candle =
      let quantity = execution_quantity call.decision call.book candle.close_price in
      if quantity == 0
      then ok (
          place_rejected call.decision.approved_quantity no_executable_quantity
            (signal_date call.policy candle))
      else place_by_policy call.policy candle quantity
