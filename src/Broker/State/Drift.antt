-- ===== src/Broker/State/Drift.antt =====
-- The books balance: cash and cost basis against the starting cash and the realized gain.
use taurus_agent.Base.{
  ℕ, zero, suc, ◌+◌, ◌-◌, ◌*◌, ◌≤◌, min, ◌≡◌, refl, ap, false, List, [], ◌∷◌, arith, ◌==◌,
  if◌then◌else◌, sum_by,
}
use taurus_agent.Base.Int.{ℤ, pos, ◌+ℤ◌, ◌-ℤ◌, ◌≤ℤ◌, int_laws}
use taurus_agent.Money.{round_half_up, round_half_up_bounds}
use taurus_agent.Execution.{OrderSide, buy, sell, PaperFill}
use taurus_agent.Broker.State.{
  PositionState, Positions, Book, position_of, put_position, held, apply_buy, apply_sell,
  apply_side, apply_fill, replay, realized_gain,
}

-- What the units of a position have cost, at its average.
abbrev pub cost_of : PositionState → ℕ
cost_of p = p.average_cost_inr * p.quantity

abbrev pub cost_basis : Positions → ℕ
cost_basis = sum_by (λ e. cost_of e.1)

-- Cash and cost basis, less the realized gain.
abbrev pub book_value : Book → ℤ
book_value b =
    b.account.available_cash_inr +ℤ pos (cost_basis b.positions) -ℤ b.account.realized_pnl_inr

cost_basis-put :
    (k : ℕ) (p : PositionState) (ps : Positions)
    → cost_basis (put_position k p ps) + cost_of (position_of k ps) ≡ cost_basis ps + cost_of p
cost_basis-put k p [] = omega arith
cost_basis-put k p ((i, old) ∷ ps) = ground (arith, cost_basis-put k p ps)

-- Twice two amounts differ by at most `k`.
abbrev pub Within : ℕ → ℤ → ℤ → Type 0
Within k a b = (a +ℤ a ≤ℤ b +ℤ b +ℤ pos k) × (b +ℤ b ≤ℤ a +ℤ a +ℤ pos k)

-- The fill is what the broker builds: its value is its price times its units.
abbrev pub IsPriced : PaperFill → Type 0
IsPriced f = (f.gross_value_inr ≡ f.fill_price_inr * f.quantity) × (1 ≤ f.quantity)

-- The units held after a purchase, each of which may carry half a tick of rounding.
abbrev pub slack_of : OrderSide → Book → PaperFill → ℕ
slack_of buy book f = held f.symbol book.positions + f.quantity
slack_of sell book f = 0

abbrev pub IsCovered : OrderSide → Book → PaperFill → Type 0
IsCovered buy book f = Unit
IsCovered sell book f = f.quantity ≤ held f.symbol book.positions

apply_buy_drift :
    (book : Book) (p : PositionState) (f : PaperFill)
    → 1 ≤ f.quantity
    → cost_of p ≡ cost_of (position_of f.symbol book.positions)
    → Within (p.quantity + f.quantity) (book_value book) (book_value (apply_buy book p f))
unfolding apply_buy
apply_buy_drift book p f h e =
    let quantity = p.quantity + f.quantity in
    let basis = p.average_cost_inr * p.quantity + f.gross_value_inr + f.cost_inr in
    let bought : PositionState = record p {
      quantity = quantity;
      average_cost_inr = round_half_up basis quantity;
    } in
    let rounded = round_half_up_bounds basis quantity (omega arith) in
    let moved = cost_basis-put f.symbol bought book.positions in
    (omega (int_laws, rounded, moved), omega (int_laws, rounded, moved))

-- The average is dropped only with the last unit.
average_kept :
    (average left n : ℕ)
    → (if left == 0 then 0 else average) * left + average * n ≡ average * (left + n)
average_kept average zero n = omega arith
average_kept average (suc left) n = ground arith

apply_sell_drift :
    (book : Book) (p : PositionState) (f : PaperFill)
    → IsPriced f
    → f.quantity ≤ p.quantity
    → cost_of p ≡ cost_of (position_of f.symbol book.positions)
    → book_value (apply_sell book p f f.quantity) ≡ book_value book
unfolding apply_sell
apply_sell_drift book p f h c e =
    let left = p.quantity - f.quantity in
    let average = if left == 0 then 0 else p.average_cost_inr in
    let sold : PositionState = record p {
      quantity = left;
      average_cost_inr = average;
      realized_pnl_inr = p.realized_pnl_inr +ℤ realized_gain p f f.quantity;
    } in
    let moved = cost_basis-put f.symbol sold book.positions in
    let whole : left + f.quantity ≡ p.quantity = omega arith in
    let kept = average_kept p.average_cost_inr left f.quantity in
    omega (int_laws, moved, kept, ap (λ (t : ℕ). p.average_cost_inr * t) whole)

apply_side_drift :
    (side : OrderSide) (book : Book) (p : PositionState) (f : PaperFill)
    → IsPriced f
    → IsCovered side book f
    → p.quantity ≡ held f.symbol book.positions
    → cost_of p ≡ cost_of (position_of f.symbol book.positions)
    → Within (slack_of side book f) (book_value book) (book_value (apply_side side book p f))
unfolding apply_side
apply_side_drift buy book p f priced covered q e =
    let (low, high) = apply_buy_drift book p f priced.1 e in (omega int_laws, omega int_laws)
apply_side_drift sell book p f priced covered q e =
    let whole : min f.quantity p.quantity ≡ f.quantity = omega arith in
    let positive : (f.quantity == 0) ≡ false = ground arith in
    let same = apply_sell_drift book p f priced (omega arith) e in
    rw (whole, positive, same) (omega int_laws, omega int_laws)

-- One fill moves the cash and the cost basis together: a covered sale leaves cash plus basis less
-- realized gain as it was, and a purchase moves it by half a tick at most for each unit then held.
pub apply_fill_drift :
    (book : Book) (f : PaperFill)
    → IsPriced f
    → IsCovered f.side book f
    → Within (slack_of f.side book f) (book_value book) (book_value (apply_fill book f))
unfolding apply_fill
apply_fill_drift book f priced covered = apply_side_drift f.side book _ f priced covered refl refl

-- The slack of a replay.
abbrev pub total_slack : Book → List PaperFill → ℕ
total_slack book [] = 0
total_slack book (f ∷ fs) = slack_of f.side book f + total_slack (apply_fill book f) fs

-- Every fill is priced as the broker prices it, and no sale exceeds what is held at its turn.
abbrev pub AreCovered : Book → List PaperFill → Type 0
AreCovered book [] = Unit
AreCovered book (f ∷ fs) = IsPriced f × IsCovered f.side book f × AreCovered (apply_fill book f) fs

-- Over a whole replay the cash plus the cost basis less the realized gain stays what it was, up to
-- half a tick for each unit held at each purchase.
pub replay_drift :
    (book : Book) (fs : List PaperFill)
    → AreCovered book fs
    → Within (total_slack book fs) (book_value book) (book_value (replay book fs))
unfolding replay
replay_drift book [] h = (omega int_laws, omega int_laws)
replay_drift book (f ∷ fs) (priced, covered, rest) =
    let first = apply_fill_drift book f priced covered in
    let later = replay_drift (apply_fill book f) fs rest in
    (omega (int_laws, first, later), omega (int_laws, first, later))
