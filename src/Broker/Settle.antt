-- ===== src/Broker/Settle.antt =====
-- `PaperBroker.settle_pending_next_open_orders`.
pub mod Outcome
pub mod Rounds
pub mod Loop
pub mod Total
use taurus_agent.Base.{
  ℕ, zero, suc, ◌+◌, ◌-◌, Bool, true, false, not, List, [], ◌∷◌, ◌++◌, Option, none, some, ◌==◌,
  if◌then◌else◌, Result, ok, err, raise_if, ◌>>=◌, ◌>>◌, profile_mismatch,
}
use taurus_agent.Base.Int.{ℤ}
use taurus_agent.Execution.{
  OrderSide, buy, sell, OrderStatus, filled, partially_filled, PaperOrder, PaperFill, Settings,
  IdScheme, RejectionReason, no_remaining_quantity, insufficient_cash, no_holdings, OutcomeReason,
  missing_signal_trade_date, waiting_for_next_candle, NextOpenSettlementOrderDetail,
  NextOpenSettlementSummary,
}
use taurus_agent.Store.{Session, Candle}
use taurus_agent.Store.Constraints.{flush}
use taurus_agent.Store.Writes.{replace_pending_next_open_order, replace_account_state}
use taurus_agent.Store.Queries.{
  first_candle_after_signal, list_pending_next_open_orders, resolve_runtime_profile,
}
use taurus_agent.Broker.State.{
  Book, apply_fill, mark_latest_open, rebuild_state_from_fills, account_and_positions,
}
use taurus_agent.Broker.Fills.{build_next_open_fill}
use taurus_agent.Broker.Affordable.{affordable_quantity}
use taurus_agent.Broker.Orders.{terminal_pending_order}

-- The local variables of the loop.
pub record Progress : Type 0 where
  pub db : Session
  pub book : Book
  pub settled : ℕ
  pub rejected : ℕ
  pub still_pending : ℕ
  pub skipped : ℕ
  pub terminal_sequence : ℕ
  pub details : List NextOpenSettlementOrderDetail

-- `fill.fill_price_inr if fill is not None else None`
abbrev pub price_of : Option PaperFill → Option ℕ
price_of none = none
price_of (some fill) = some fill.fill_price_inr

-- `_settlement_detail`
unfoldable pub settlement_detail :
    PaperOrder
    → (quantity : ℕ) → (execution_trade_date reference_price : Option ℕ) → Option PaperFill
    → Option RejectionReason
    → Option OutcomeReason
    → NextOpenSettlementOrderDetail
settlement_detail order quantity execution_trade_date reference_price fill reason outcome = record {
  order_id = order.order_id;
  symbol = order.symbol;
  side = order.side;
  signal_trade_date = order.signal_trade_date;
  execution_trade_date = execution_trade_date;
  reference_price_inr = reference_price;
  fill_price_inr = price_of fill;
  quantity = quantity;
  status = order.status;
  rejection_reason = reason;
  outcome_reason = outcome;
}

-- `pending_order.remaining_quantity`, or what is left of the order where that is not positive.
abbrev pub requested_quantity : PaperOrder → ℕ
requested_quantity order =
    if order.remaining_quantity == 0
    then order.quantity - order.filled_quantity
    else order.remaining_quantity

-- The reason for a settlement that nothing can be bought or sold for.
abbrev pub unaffordable_reason : OrderSide → RejectionReason
unaffordable_reason buy = insufficient_cash
unaffordable_reason sell = no_holdings

-- A row that is passed over, with the reason in its detail.
abbrev pub note_outcome : Progress → PaperOrder → OutcomeReason → List NextOpenSettlementOrderDetail
note_outcome p order outcome =
    p.details ++ settlement_detail order 0 none none none none (some outcome) ∷ []

module _ (ids : IdScheme) (s : Settings) (run_id timestamp : ℕ) where
  -- A row that ends as a rejected order.
  unfoldable pub reject_row : Progress → PaperOrder → Candle → RejectionReason → Result Progress
  reject_row p order candle reason = do
    let sequence = p.terminal_sequence + 1
    let rejected_order =
        terminal_pending_order order OrderStatus.rejected (timestamp + sequence) candle.trade_date
          none (some reason)
    db ← replace_pending_next_open_order p.db order.order_id rejected_order []
    ok (record p {
      db = db;
      rejected = p.rejected + 1;
      terminal_sequence = sequence;
      details =
          p.details
          ++ settlement_detail rejected_order 0 (some candle.trade_date) (some candle.open_price)
              none (some reason) none
            ∷ [];
    })

  -- A row that is filled, for `affordable` of `requested` units.
  unfoldable pub fill_row :
      Progress → PaperOrder → Candle → (requested affordable : ℕ) → Result Progress
  fill_row p order candle requested affordable = do
    let sequence = p.terminal_sequence + 1
    fill ←
        build_next_open_fill ids s order run_id affordable candle.open_price candle.trade_date
          (timestamp + sequence)
    let status = if affordable == requested then filled else partially_filled
    let settled_order =
        terminal_pending_order order status fill.filled_at candle.trade_date (some fill) none
    db ← replace_pending_next_open_order p.db order.order_id settled_order (fill ∷ [])
    ok (record p {
      db = db;
      book = apply_fill p.book fill;
      settled = p.settled + 1;
      terminal_sequence = sequence;
      details =
          p.details
          ++ settlement_detail settled_order fill.quantity (some candle.trade_date)
              (some candle.open_price) (some fill) none none
            ∷ [];
    })

  -- A row for which there is a candle after the signal.
  unfoldable pub execute_row : Progress → PaperOrder → Candle → Result Progress
  execute_row p order candle =
      let requested = requested_quantity order in
      if requested == 0
      then reject_row p order candle no_remaining_quantity
      else build_next_open_fill ids s order run_id requested candle.open_price candle.trade_date
          timestamp
        >>= λ preview.
            let affordable =
              affordable_quantity order.side requested (preview ∷ [])
                p.book.account.available_cash_inr p.book.positions order.symbol in
            if affordable == 0
            then reject_row p order candle (unaffordable_reason order.side)
            else fill_row p order candle requested affordable

  -- The candle after the signal, or none yet.
  unfoldable pub settle_on : Progress → PaperOrder → Option Candle → Result Progress
  settle_on p order none = ok (record p {
    still_pending = p.still_pending + 1;
    details = note_outcome p order waiting_for_next_candle;
  })
  settle_on p order (some candle) = execute_row p order candle

  -- The date of the signal, or none.
  unfoldable pub settle_signed : Progress → PaperOrder → Option ℕ → Result Progress
  settle_signed p order none = ok (record p {
    skipped = p.skipped + 1;
    details = note_outcome p order missing_signal_trade_date;
  })
  settle_signed p order (some signal) =
      settle_on p order (first_candle_after_signal p.db order.symbol signal)

  -- One round of the loop over the pending rows.
  unfoldable pub settle_row : Progress → PaperOrder → Result Progress
  settle_row p order = settle_signed p order order.signal_trade_date

  unfoldable pub settle_rows : Progress → List PaperOrder → Result Progress
  settle_rows p [] = ok p
  settle_rows p (order ∷ rows) = settle_row p order >>= λ next. settle_rows next rows

abbrev pub start : Session → Book → Progress
start db book = record {
  db = db;
  book = book;
  settled = 0;
  rejected = 0;
  still_pending = 0;
  skipped = 0;
  terminal_sequence = 0;
  details = [];
}

-- What follows the loop: prices are marked, and the account state is replaced.
unfoldable pub finish :
    IdScheme → (portfolio_id run_id timestamp : ℕ) → Progress → NextOpenSettlementSummary × Session
finish ids portfolio_id run_id timestamp p =
    let book = record (p.book) { positions = mark_latest_open p.db p.book.positions } in
    let (account, positions) = account_and_positions ids book (timestamp + p.terminal_sequence) in
    (
      record {
        portfolio_id = portfolio_id;
        run_id = run_id;
        settled = p.settled;
        rejected = p.rejected;
        still_pending = p.still_pending;
        skipped = p.skipped;
        details = p.details;
      },
      replace_account_state p.db run_id portfolio_id account positions,
    )

-- `settle_pending_next_open_orders` with the rows that it stores, before the database has checked
-- them.
unfoldable pub settle_unchecked :
    IdScheme
    → Settings
    → Session
    → (portfolio_id run_id settled_at : ℕ) → (symbol : Option ℕ)
    → Result (NextOpenSettlementSummary × Session)
settle_unchecked ids s db portfolio_id run_id settled_at symbol = do
  raise_if (not (portfolio_id == s.profile_id)) profile_mismatch
  corpus ← resolve_runtime_profile db portfolio_id
  let pending_rows = list_pending_next_open_orders db portfolio_id symbol
  let book = rebuild_state_from_fills db run_id portfolio_id corpus
  p ← settle_rows ids s run_id settled_at (start db book) pending_rows
  ok (finish ids portfolio_id run_id settled_at p)

unfoldable pub settle_pending_next_open_orders :
    IdScheme
    → Settings
    → Session
    → (portfolio_id run_id settled_at : ℕ) → (symbol : Option ℕ)
    → Result (NextOpenSettlementSummary × Session)
unfolding settle_unchecked
settle_pending_next_open_orders ids s db portfolio_id run_id settled_at symbol = do
  settled ← settle_unchecked ids s db portfolio_id run_id settled_at symbol
  stored ← flush settled.1
  ok (settled.0, stored)
