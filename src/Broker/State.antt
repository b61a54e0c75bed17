-- ===== src/Broker/State.antt =====
-- The broker's working state: `_AccountState`, the dict of `_PositionState` by symbol, and
-- `_apply_fill`, `_mark_prices`, `_rebuild_state_from_fills`, `_account_and_positions`.
pub mod Posted
pub mod Ledger
pub mod Drift
pub mod Rows
use taurus_agent.Base.{
  ℕ, zero, suc, ◌+◌, ◌-◌, ◌*◌, ◌<◌, min, Bool, true, false, List, [], ◌∷◌, Option, none, some, ◌==◌,
  ltb, leb, if◌then◌else◌, foldl, map, keep_if, sort_by, sum_by,
}
use taurus_agent.Base.Int.{ℤ, pos, negsuc, ◌+ℤ◌, ◌-ℤ◌, ◌*ℤ◌}
use taurus_agent.Money.{round_half_up}
use taurus_agent.Execution.{OrderSide, buy, sell, PaperFill, PaperAccount, PaperPosition, IdScheme}
use taurus_agent.Store.{Session, Candle}
use taurus_agent.Store.Queries.{latest_candle, list_fills_by_portfolio}

-- `_PositionState`
pub record PositionState : Type 0 where
  pub quantity : ℕ
  pub average_cost_inr : ℕ
  pub realized_pnl_inr : ℤ
  pub last_price_inr : ℕ

-- `_AccountState`
pub record AccountState : Type 0 where
  pub run_id : ℕ
  pub portfolio_id : ℕ
  pub starting_cash_inr : ℤ
  pub available_cash_inr : ℤ
  pub realized_pnl_inr : ℤ

-- `dict[str, _PositionState]`, in the order of insertion.
abbrev pub Positions : Type 0
Positions = List (ℕ × PositionState)

pub record Book : Type 0 where
  pub account : AccountState
  pub positions : Positions

abbrev pub new_position : PositionState
new_position = record {
  quantity = 0;
  average_cost_inr = 0;
  realized_pnl_inr = pos 0;
  last_price_inr = 0;
}

-- `positions.get(symbol, _PositionState(symbol=symbol))`
abbrev pub position_of : ℕ → Positions → PositionState
position_of symbol [] = new_position
position_of symbol ((key, p) ∷ rest) = if key == symbol then p else position_of symbol rest

-- The entry of `symbol` is overwritten, or added at the end.
abbrev pub put_position : ℕ → PositionState → Positions → Positions
put_position symbol p [] = (symbol, p) ∷ []
put_position symbol p ((key, old) ∷ rest) =
    if key == symbol then (key, p) ∷ rest else (key, old) ∷ put_position symbol p rest

-- The quantity held of a symbol.
abbrev pub held : ℕ → Positions → ℕ
held symbol positions = (position_of symbol positions).quantity

-- The `BUY` branch of `_apply_fill`, on the entry of the fill's symbol.
unfoldable pub apply_buy : Book → PositionState → PaperFill → Book
apply_buy book position fill =
    let basis =
      position.average_cost_inr * position.quantity + fill.gross_value_inr + fill.cost_inr in
    let quantity = position.quantity + fill.quantity in
    record {
      account = record book.account {
        available_cash_inr =
            book.account.available_cash_inr -ℤ pos (fill.gross_value_inr + fill.cost_inr);
      };
      positions =
          put_position fill.symbol
            (record position {
              quantity = quantity;
              average_cost_inr = round_half_up basis quantity;
            })
            book.positions;
    }

-- `(fill_price_inr - average_cost_inr) * sell_quantity - cost_inr`
unfoldable pub realized_gain : PositionState → PaperFill → ℕ → ℤ
realized_gain position fill sell_quantity =
    pos (fill.fill_price_inr * sell_quantity)
    -ℤ pos (position.average_cost_inr * sell_quantity + fill.cost_inr)

-- The rest of `_apply_fill`, for a sale of `sell_quantity` units.
unfoldable pub apply_sell : Book → PositionState → PaperFill → ℕ → Book
unfolding realized_gain
apply_sell book position fill sell_quantity =
    let realized = realized_gain position fill sell_quantity in
    let left = position.quantity - sell_quantity in
    record {
      account = record book.account {
        available_cash_inr =
            book.account.available_cash_inr +ℤ (pos fill.gross_value_inr -ℤ pos fill.cost_inr);
        realized_pnl_inr = book.account.realized_pnl_inr +ℤ realized;
      };
      positions =
          put_position fill.symbol
            (record position {
              quantity = left;
              average_cost_inr = if left == 0 then 0 else position.average_cost_inr;
              realized_pnl_inr = position.realized_pnl_inr +ℤ realized;
            })
            book.positions;
    }

-- The two branches of `_apply_fill`. A sale from an empty holding leaves the entry as it is.
unfoldable pub apply_side : OrderSide → Book → PositionState → PaperFill → Book
unfolding apply_buy apply_sell
apply_side buy book position fill = apply_buy book position fill
apply_side sell book position fill =
    let sell_quantity = min fill.quantity position.quantity in
    if sell_quantity == 0
    then record book { positions = put_position fill.symbol position book.positions }
    else apply_sell book position fill sell_quantity

-- `_apply_fill`. `setdefault` leaves an entry for the symbol also where nothing is sold.
unfoldable pub apply_fill : Book → PaperFill → Book
unfolding apply_side
apply_fill book fill =
    apply_side fill.side book
      (record (position_of fill.symbol book.positions) { last_price_inr = fill.fill_price_inr })
      fill

-- `_mark_prices`: only a symbol that has an entry is marked.
unfoldable pub mark_prices : ℕ → ℕ → Positions → Positions
mark_prices symbol last_price [] = []
mark_prices symbol last_price ((key, p) ∷ rest) =
    if key == symbol
    then (key, record p { last_price_inr = last_price }) ∷ rest
    else (key, p) ∷ mark_prices symbol last_price rest

-- The loop over `list(positions)` at the end of `_rebuild_state_from_fills`.
unfoldable pub mark_latest : Session → Positions → Positions
unfolding latest_candle
mark_latest db [] = []
mark_latest db ((symbol, p) ∷ rest) =
    elim (latest_candle db symbol) [
      | none ↦ (symbol, p)
      | some candle ↦ (symbol, record p { last_price_inr = candle.close_price })
    ]
    ∷ mark_latest db rest

-- `_mark_latest_prices_for_positions`, which passes over closed positions.
unfoldable pub mark_latest_open : Session → Positions → Positions
unfolding latest_candle
mark_latest_open db [] = []
mark_latest_open db ((symbol, p) ∷ rest) =
    elim (latest_candle db symbol) [
      | none ↦ (symbol, p)
      | some candle ↦
          (symbol, if p.quantity == 0 then p else record p { last_price_inr = candle.close_price })
    ]
    ∷ mark_latest_open db rest

abbrev pub opening_book : (run_id portfolio_id starting_cash : ℕ) → Book
opening_book run_id portfolio_id starting_cash = record {
  account = record {
    run_id = run_id;
    portfolio_id = portfolio_id;
    starting_cash_inr = pos starting_cash;
    available_cash_inr = pos starting_cash;
    realized_pnl_inr = pos 0;
  };
  positions = [];
}

-- The loop over the stored fills.
unfoldable pub replay : Book → List PaperFill → Book
replay book [] = book
replay book (fill ∷ fills) = replay (apply_fill book fill) fills

-- `_rebuild_state_from_fills`
unfoldable pub rebuild_state_from_fills : Session → (run_id portfolio_id starting_cash : ℕ) → Book
unfolding replay apply_fill mark_latest list_fills_by_portfolio
rebuild_state_from_fills db run_id portfolio_id starting_cash =
    let book =
      replay (opening_book run_id portfolio_id starting_cash)
        (list_fills_by_portfolio db portfolio_id) in
    record book { positions = mark_latest db book.positions }

-- `_gross_exposure`
unfoldable pub gross_exposure : Positions → ℕ
gross_exposure = sum_by (λ e. e.1.last_price_inr * e.1.quantity)

abbrev pub symbol_before : ℕ × PositionState → ℕ × PositionState → Bool
symbol_before a b = leb a.0 b.0

abbrev pub is_open : ℕ × PositionState → Bool
is_open e = ltb 0 e.1.quantity

-- The open positions in the order of `sorted(positions.items())`.
unfoldable pub open_positions : Positions → Positions
open_positions positions = keep_if is_open (sort_by symbol_before positions)

-- `(last_price - average_cost) * quantity`
abbrev pub unrealized_gain : PositionState → ℤ
unrealized_gain p = (pos p.last_price_inr -ℤ pos p.average_cost_inr) *ℤ pos p.quantity

unfoldable pub position_model : AccountState → ℕ → ℕ × PositionState → PaperPosition
position_model account updated_at (symbol, p) = record {
  run_id = account.run_id;
  portfolio_id = account.portfolio_id;
  symbol = symbol;
  quantity = p.quantity;
  average_cost_inr = p.average_cost_inr;
  last_price_inr = p.last_price_inr;
  market_value_inr = p.last_price_inr * p.quantity;
  realized_pnl_inr = p.realized_pnl_inr;
  unrealized_pnl_inr = unrealized_gain p;
  updated_at = updated_at;
}

abbrev pub sum_unrealized : Positions → ℤ
sum_unrealized [] = pos 0
sum_unrealized (e ∷ rest) = unrealized_gain e.1 +ℤ sum_unrealized rest

-- `_account_and_positions`
unfoldable pub account_and_positions : IdScheme → Book → ℕ → PaperAccount × List PaperPosition
unfolding open_positions gross_exposure position_model
account_and_positions ids book updated_at =
    let rows = open_positions book.positions in
    let exposure = gross_exposure rows in
    (
      record {
        account_id = ids.paper_account_id book.account.portfolio_id book.account.run_id;
        run_id = book.account.run_id;
        portfolio_id = book.account.portfolio_id;
        starting_cash_inr = book.account.starting_cash_inr;
        available_cash_inr = book.account.available_cash_inr;
        reserved_cash_inr = 0;
        realized_pnl_inr = book.account.realized_pnl_inr;
        unrealized_pnl_inr = sum_unrealized rows;
        gross_exposure_inr = exposure;
        equity_inr = book.account.available_cash_inr +ℤ pos exposure;
        updated_at = updated_at;
      },
      map (position_model book.account updated_at) rows,
    )
