-- ===== src/Broker/Settle/Total.antt =====
-- `settle_pending_next_open_orders` raises for no profile that is set up.
use taurus_agent.Base.{
  ℕ, ◌+◌, ◌*◌, ◌≤◌, ◌≡◌, refl, ap, inl, inr, Bool, true, false, not, ◌&&◌, ◌||◌, List, [], ◌∷◌,
  Option, none, some, ◌==◌, if◌then◌else◌, ok, Returns, >>=-Returns, head_of, leb, All, All-keep_if,
  arith, Bool-cases,
}
use taurus_agent.Money.{rate_unit}
use taurus_agent.Execution.{
  OrderStatus, filled, partially_filled, pending_next_open, status_eq, PaperOrder, Settings,
  IdScheme, RejectionReason, no_remaining_quantity,
}
use taurus_agent.Store.{Session, Candle}
use taurus_agent.Store.Checked.{IsChecked, checked-IsChecked}
use taurus_agent.Store.Writes.{is_fill_status}
use taurus_agent.Store.Replace.{replace-Returns}
use taurus_agent.Store.Keys.{HasUniqueIds, IsFoundIn}
use taurus_agent.Store.Queries.{
  first_candle_after_signal, is_pending_for, list_pending_next_open_orders, resolve_runtime_profile,
}
use taurus_agent.Broker.State.{rebuild_state_from_fills}
use taurus_agent.Broker.Fills.{build_next_open_fill}
use taurus_agent.Broker.Fills.Built.{build_next_open_fill-units}
use taurus_agent.Broker.Fills.Total.{build_next_open_fill-Returns}
use taurus_agent.Broker.Affordable.{affordable_quantity}
use taurus_agent.Broker.Orders.{terminal_pending_order}
use taurus_agent.Broker.Place.Total.{IsPricedCandle, IsPricedQuote}
use taurus_agent.Broker.Settle.{
  Progress, requested_quantity, unaffordable_reason, reject_row, fill_row, execute_row, settle_on,
  settle_signed, settle_row, settle_rows, start, settle_unchecked, settle_pending_next_open_orders,
}
use taurus_agent.Broker.Settle.Outcome.{RowDone}
use taurus_agent.Broker.Settle.Rounds.{settle_row_outcome}
use taurus_agent.Broker.Settle.Loop.{found_after, pending_rows_ready}

-- Every stored price is at least a tick.
abbrev pub HasPricedCandles : Session → Type 0
HasPricedCandles db = (symbol : ℕ) → All IsPricedCandle (db.candles symbol)

head_priced : (cs : List Candle) → All IsPricedCandle cs → IsPricedQuote (head_of cs)
head_priced [] h = tt
head_priced (c ∷ cs) h = h.0

next_priced :
    (db : Session) (symbol signal : ℕ)
    → HasPricedCandles db
    → IsPricedQuote (first_candle_after_signal db symbol signal)
unfolding first_candle_after_signal
next_priced db symbol signal priced = head_priced _ (
    All-keep_if IsPricedCandle (λ c. leb (signal + 1) c.trade_date) (db.candles symbol)
      (priced symbol))

same_true : (a b : ℕ) → a ≡ b → (not (a == b) || false) ≡ false
same_true a b h = ground arith

module _ (ids : IdScheme) (s : Settings) (small : 2 * s.slippage_bps ≤ rate_unit)
    (run_id timestamp : ℕ) where
  module _ (p : Progress) (order : PaperOrder) (found : IsFoundIn p.db.orders order)
      (pending : status_eq order.status pending_next_open ≡ true) where
    reject_row-Returns :
        (candle : Candle) (reason : RejectionReason)
        → Returns (reject_row ids s run_id timestamp p order candle reason)
    unfolding reject_row terminal_pending_order
    reject_row-Returns candle reason =
        >>=-Returns _ _
          (replace-Returns p.db order _ [] found (record {
            pending = pending;
            same_id = refl;
            same_decision = refl;
            outcome = inr (refl, refl, refl);
            fill_ids = refl;
            fill_decisions = refl;
          }))
          (λ db e. (_, refl))

    fill_row-Returns :
        (candle : Candle) (requested affordable : ℕ)
        → 1 ≤ affordable
        → IsPricedCandle candle
        → Returns (fill_row ids s run_id timestamp p order candle requested affordable)
    unfolding fill_row terminal_pending_order
    fill_row-Returns candle requested affordable h priced =
        >>=-Returns
          (build_next_open_fill ids s order run_id affordable candle.open_price candle.trade_date
            (timestamp + (p.terminal_sequence + 1)))
          _
          (build_next_open_fill-Returns ids s small order run_id affordable candle.open_price
            candle.trade_date (timestamp + (p.terminal_sequence + 1)) priced.open_pos h)
          (λ fill built.
            let made =
              build_next_open_fill-units ids s order run_id affordable candle.open_price
                candle.trade_date (timestamp + (p.terminal_sequence + 1)) built in
            >>=-Returns _ _
              (replace-Returns p.db order _ (fill ∷ []) found (record {
                pending = pending;
                same_id = refl;
                same_decision = refl;
                outcome = inl (fill_status (affordable == requested));
                fill_ids = same_true fill.order_id order.order_id made.1;
                fill_decisions = same_true fill.final_decision_id order.final_decision_id made.2;
              }))
              (λ db e. (_, refl)))
      where
        fill_status :
            (whole : Bool)
            → let status = if whole then filled else partially_filled in
              (is_fill_status status ≡ true)
              × (status_eq status OrderStatus.rejected ≡ false)
              × (true ≡ true)
        fill_status true = (refl, refl, refl)
        fill_status false = (refl, refl, refl)

    execute_row-Returns :
        (candle : Candle)
        → IsPricedCandle candle
        → Returns (execute_row ids s run_id timestamp p order candle)
    unfolding execute_row
    execute_row-Returns candle priced = elim (Bool-cases (requested_quantity order == 0)) [
      | inl nothing ↦ rw nothing (reject_row-Returns candle no_remaining_quantity)
      | inr asked ↦ rw asked (
          >>=-Returns
            (build_next_open_fill ids s order run_id (requested_quantity order) candle.open_price
              candle.trade_date timestamp)
            _
            (build_next_open_fill-Returns ids s small order run_id (requested_quantity order)
              candle.open_price candle.trade_date timestamp priced.open_pos (ground arith))
            (λ preview built.
              let affordable =
                affordable_quantity order.side (requested_quantity order) (preview ∷ [])
                  p.book.account.available_cash_inr p.book.positions order.symbol in
              elim (Bool-cases (affordable == 0)) [
                | inl none_left ↦
                    rw none_left (reject_row-Returns candle (unaffordable_reason order.side))
                | inr some_units ↦ rw some_units (
                    fill_row-Returns candle (requested_quantity order) affordable (ground arith)
                      priced)
              ]))
    ]

    settle_on-Returns :
        (candle : Option Candle)
        → IsPricedQuote candle
        → Returns (settle_on ids s run_id timestamp p order candle)
    unfolding settle_on
    settle_on-Returns none priced = (_, refl)
    settle_on-Returns (some candle) priced = execute_row-Returns candle priced

    settle_signed-Returns :
        (signal : Option ℕ)
        → HasPricedCandles p.db
        → Returns (settle_signed ids s run_id timestamp p order signal)
    unfolding settle_signed
    settle_signed-Returns none priced = (_, refl)
    settle_signed-Returns (some signal) priced =
        settle_on-Returns _ (next_priced p.db order.symbol signal priced)

  candles_after :
      (order : PaperOrder) (p p' : Progress) → RowDone order p p' → p'.db.candles ≡ p.db.candles
  candles_after order p p' done = elim done.effect [
    | inl passed ↦ ap (λ d. d.candles) passed.db
    | inr over ↦ elim over.filled_by [
      | inl f ↦ ap (λ d. d.candles) f.3
      | inr f ↦ ap (λ d. d.candles) f.7
    ]
  ]

  middle_true : (a b c : Bool) → (a && b && c) ≡ true → b ≡ true
  middle_true a b c h = ground arith

  settle_row-Returns :
      (p : Progress) (o : PaperOrder)
      → IsFoundIn p.db.orders o
      → status_eq o.status pending_next_open ≡ true
      → HasPricedCandles p.db
      → Returns (settle_row ids s run_id timestamp p o)
  unfolding settle_row
  settle_row-Returns p o found pending priced =
      settle_signed-Returns p o found pending o.signal_trade_date priced

  settle_rows-Returns :
      (portfolio_id : ℕ) (symbol : Option ℕ) (p : Progress) (rows : List PaperOrder)
      → HasUniqueIds rows
      → All (IsFoundIn p.db.orders) rows
      → All (λ o. is_pending_for portfolio_id symbol o ≡ true) rows
      → HasPricedCandles p.db
      → Returns (settle_rows ids s run_id timestamp p rows)
  unfolding settle_rows
  settle_rows-Returns portfolio_id symbol p [] unique found pending priced = (_, refl)
  settle_rows-Returns portfolio_id symbol p (o ∷ rows) unique found pending priced =
      >>=-Returns (settle_row ids s run_id timestamp p o) _
        (settle_row-Returns p o found.0 (middle_true _ _ _ pending.0) priced)
        (λ next round.
          let done = settle_row_outcome ids s run_id timestamp p o round in
          settle_rows-Returns portfolio_id symbol next rows unique.1
            (found_after o p next rows done unique.0 found.1) pending.1
            (rw (candles_after o p next done) priced))

-- A settlement of the configured profile returns where the profile is active with a corpus, the ids
-- of the orders differ, every stored price is at least a tick, slippage is at most half of the price,
-- and the database takes the rows that the call would store: orders with an id and a final decision
-- of their own, fills with an id and a place in their order of their own, one account for a run and
-- one position for a run and symbol, and no decision, order or instrument that these refer to
-- missing. Where the rows are not so, the call raises the violated constraint.
pub settle-IsChecked :
    (ids : IdScheme) (s : Settings) (db : Session) (portfolio_id run_id settled_at : ℕ)
    (symbol : Option ℕ) (corpus : ℕ)
    → 2 * s.slippage_bps ≤ rate_unit
    → portfolio_id ≡ s.profile_id
    → resolve_runtime_profile db portfolio_id ≡ ok corpus
    → HasUniqueIds db.orders
    → HasPricedCandles db
    → IsChecked
        (settle_unchecked ids s db portfolio_id run_id settled_at symbol)
        (settle_pending_next_open_orders ids s db portfolio_id run_id settled_at symbol)
unfolding settle_pending_next_open_orders settle_unchecked
settle-IsChecked ids s db portfolio_id run_id settled_at symbol corpus small same funded unique
      priced =
    let own : (portfolio_id == s.profile_id) ≡ true = ground arith in
    let (once, found, pending, _) = pending_rows_ready portfolio_id symbol db unique in
    checked-IsChecked (settle_unchecked ids s db portfolio_id run_id settled_at symbol) (
      rw (own, funded)
        (>>=-Returns
          (settle_rows ids s run_id settled_at
            (start db (rebuild_state_from_fills db run_id portfolio_id corpus))
            (list_pending_next_open_orders db portfolio_id symbol))
          _
          (settle_rows-Returns ids s small run_id settled_at portfolio_id symbol _ _ once found
            pending priced)
          (λ p e. (_, refl))))
