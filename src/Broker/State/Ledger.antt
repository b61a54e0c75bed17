-- ===== src/Broker/State/Ledger.antt =====
-- `_apply_fill` against what a fill means for the cash and the holdings.
use taurus_agent.Base.{
  ℕ, zero, suc, ◌+◌, ◌-◌, min, ◌≡◌, refl, List, [], ◌∷◌, arith, Option-cases, ◌∙◌, ◌==◌,
  if◌then◌else◌, inl, inr,
}
use taurus_agent.Base.Int.{ℤ, pos, ◌+ℤ◌, ◌-ℤ◌}
use taurus_agent.Execution.{OrderSide, buy, sell, PaperFill}
use taurus_agent.Broker.State.{
  PositionState, Positions, Book, position_of, put_position, held, apply_sell, apply_side,
  apply_fill, replay, mark_latest, opening_book, rebuild_state_from_fills,
}
use taurus_agent.Broker.State.Posted.{IsPosted, list_fills-IsPosted}
use taurus_agent.Store.{Session}
use taurus_agent.Store.Queries.{latest_candle, list_fills_by_portfolio}

pub position_of-put :
    (j k : ℕ) (p : PositionState) (ps : Positions)
    → position_of j (put_position k p ps) ≡ (if k == j then p else position_of j ps)
position_of-put j k p [] = refl
position_of-put j k p ((i, old) ∷ ps) = ground (arith, position_of-put j k p ps)

-- The units that a sale takes from a holding.
abbrev pub sold : (holding quantity : ℕ) → ℕ
sold holding quantity = min quantity holding

-- The abstract ledger: the cash, and the holding of each symbol.
pub record Ledger : Type 0 where
  pub cash : ℤ
  pub holding : ℕ → ℕ

abbrev pub set_holding : (ℕ → ℕ) → ℕ → ℕ → ℕ → ℕ
set_holding h symbol quantity j = if symbol == j then quantity else h j

-- What one fill does: a purchase costs its value and its charges, a sale of at least one unit
-- brings its value less the charges, and a sale from no holding does nothing.
abbrev pub post_sale : Ledger → PaperFill → ℕ → Ledger
post_sale l f zero = l
post_sale l f (suc n) = record {
  cash = l.cash +ℤ (pos f.gross_value_inr -ℤ pos f.cost_inr);
  holding = set_holding l.holding f.symbol (l.holding f.symbol - suc n);
}

abbrev pub post_side : OrderSide → Ledger → PaperFill → Ledger
post_side buy l f = record {
  cash = l.cash -ℤ pos (f.gross_value_inr + f.cost_inr);
  holding = set_holding l.holding f.symbol (l.holding f.symbol + f.quantity);
}
post_side sell l f = post_sale l f (sold (l.holding f.symbol) f.quantity)

abbrev pub post : Ledger → PaperFill → Ledger
post l f = post_side f.side l f

abbrev pub post_all : Ledger → List PaperFill → Ledger
post_all l [] = l
post_all l (f ∷ fs) = post_all (post l f) fs

-- The book shows the cash and the holdings of the ledger.
pub record Shows (book : Book) (l : Ledger) : Type 0 where
  pub cash : book.account.available_cash_inr ≡ l.cash
  pub holding : (j : ℕ) → held j book.positions ≡ l.holding j

sale-Shows :
    (book : Book) (l : Ledger) (p : PositionState) (f : PaperFill) (n : ℕ)
    → Shows book l
    → p.quantity ≡ l.holding f.symbol
    → Shows
        (if n == 0
          then record book { positions = put_position f.symbol p book.positions }
          else apply_sell book p f n)
        (post_sale l f n)
unfolding apply_sell
sale-Shows book l p f zero h q = record {
  cash = h.cash;
  holding = λ j. grind (arith, h.holding j, position_of-put);
}
sale-Shows book l p f (suc n) h q = record {
  cash = ground arith;
  holding = λ j. grind (arith, h.holding j, position_of-put);
}

apply_side-Shows :
    (side : OrderSide) (book : Book) (l : Ledger) (p : PositionState) (f : PaperFill)
    → Shows book l
    → p.quantity ≡ l.holding f.symbol
    → Shows (apply_side side book p f) (post_side side l f)
unfolding apply_side
apply_side-Shows buy book l p f h q = record {
  cash = cc (h.cash);
  holding = λ j. grind (arith, h.holding j, position_of-put);
}
apply_side-Shows sell book l p f h q =
    rw (← q) (sale-Shows book l p f (sold p.quantity f.quantity) h q)

pub apply_fill-Shows :
    (book : Book) (l : Ledger) (f : PaperFill) → Shows book l → Shows (apply_fill book f) (post l f)
unfolding apply_fill
apply_fill-Shows book l f h = apply_side-Shows f.side book l _ f h (h.holding f.symbol)

pub replay-Shows :
    (book : Book) (l : Ledger) (fs : List PaperFill)
    → Shows book l
    → Shows (replay book fs) (post_all l fs)
unfolding replay
replay-Shows book l [] h = h
replay-Shows book l (f ∷ fs) h =
    replay-Shows (apply_fill book f) (post l f) fs (apply_fill-Shows book l f h)

-- Marking prices changes no holding.
pub held-mark_latest :
    (db : Session) (j : ℕ) (ps : Positions) → held j (mark_latest db ps) ≡ held j ps
unfolding mark_latest
held-mark_latest db j [] = refl
held-mark_latest db j ((k, p) ∷ ps) = elim (Option-cases (latest_candle db k)) [
  | inl none_found ↦ rw none_found (ground (arith, held-mark_latest db j ps))
  | inr (candle, found) ↦ rw found (ground (arith, held-mark_latest db j ps))
]

-- The ledger of a profile before its first fill.
abbrev pub opening_ledger : ℕ → Ledger
opening_ledger starting_cash = record { cash = pos starting_cash; holding = λ j. 0 }

-- The rebuilt state shows the ledger, with the same cash and the same holding of every symbol, to
-- which the fills of the portfolio are posted from the starting cash: each is of the portfolio, they
-- are in the order of their times, and by any weight they sum to the portfolio's stored fills.
pub rebuild-Shows :
    (weight : PaperFill → ℕ) (db : Session) (run_id portfolio_id starting_cash : ℕ)
    → let fills = list_fills_by_portfolio db portfolio_id in
      Shows
        (rebuild_state_from_fills db run_id portfolio_id starting_cash)
        (post_all (opening_ledger starting_cash) fills)
      × IsPosted weight portfolio_id db.fills fills
unfolding rebuild_state_from_fills
rebuild-Shows weight db run_id portfolio_id starting_cash =
    let shown =
      replay-Shows (opening_book run_id portfolio_id starting_cash) (opening_ledger starting_cash)
        (list_fills_by_portfolio db portfolio_id) (record { cash = refl; holding = λ j. refl }) in
    (
      record { cash = shown.cash; holding = λ j. held-mark_latest db j _ ∙ shown.holding j },
      list_fills-IsPosted weight db portfolio_id,
    )
