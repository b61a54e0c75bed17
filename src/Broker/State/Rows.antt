-- ===== src/Broker/State/Rows.antt =====
-- The rows that `_account_and_positions` makes, and what a rebuilt state reads of the session.
use taurus_agent.Base.{
  ℕ, ◌≡◌, refl, ◌∙◌, List, [], ◌∷◌, ◌==◌, map, min, All, All-map, Bool-cases, inl, inr,
}
use taurus_agent.Execution.{OrderSide, buy, sell, PaperFill, PaperPosition, IdScheme}
use taurus_agent.Store.{Session}
use taurus_agent.Store.Queries.{latest_candle, list_fills_by_portfolio}
use taurus_agent.Broker.State.{
  PositionState, AccountState, Positions, Book, opening_book, apply_side, apply_buy, apply_sell,
  apply_fill, replay, mark_latest, rebuild_state_from_fills, open_positions, position_model,
  account_and_positions,
}

-- The primary key of a position row names the run and the portfolio.
abbrev pub IsRowOf : (run_id portfolio_id : ℕ) → PaperPosition → Type 0
IsRowOf run_id portfolio_id p = (p.run_id ≡ run_id) × (p.portfolio_id ≡ portfolio_id)

module _ (account : AccountState) (updated_at : ℕ) where
  rows_of_models :
      (ps : Positions)
      → All
          (IsRowOf account.run_id account.portfolio_id)
          (map (position_model account updated_at) ps)
  unfolding position_model
  rows_of_models [] = tt
  rows_of_models (p ∷ ps) = ((refl, refl), rows_of_models ps)

pub rows_of_account :
    (ids : IdScheme) (book : Book) (updated_at : ℕ)
    → All
        (IsRowOf book.account.run_id book.account.portfolio_id)
        (account_and_positions ids book updated_at).1
unfolding account_and_positions
rows_of_account ids book updated_at =
    rows_of_models book.account updated_at (open_positions book.positions)

-- Both hold the same run and portfolio.
abbrev SameAccount : Book → Book → Type 0
SameAccount a b =
    (a.account.run_id ≡ b.account.run_id) × (a.account.portfolio_id ≡ b.account.portfolio_id)

apply_side_account :
    (side : OrderSide) (book : Book) (p : PositionState) (f : PaperFill)
    → SameAccount (apply_side side book p f) book
unfolding apply_side apply_buy apply_sell
apply_side_account buy book p f = (refl, refl)
apply_side_account sell book p f = elim (Bool-cases (min f.quantity p.quantity == 0)) [
  | inl h ↦ rw h (refl, refl)
  | inr h ↦ rw h (refl, refl)
]

replay_account : (book : Book) (fs : List PaperFill) → SameAccount (replay book fs) book
unfolding replay apply_fill
replay_account book [] = (refl, refl)
replay_account book (f ∷ fs) =
    let (run, portfolio) = replay_account (apply_fill book f) fs in
    let (run', portfolio') = apply_side_account f.side book _ f in
    (run ∙ run', portfolio ∙ portfolio')

-- After a replay, and a step that leaves the account, the rows are those of the account.
pub rows_of_replay :
    (ids : IdScheme) (book : Book) (fs : List PaperFill) (g : Book → Book) (updated_at : ℕ)
    → ((b : Book) → (g b).account.run_id ≡ b.account.run_id)
    → ((b : Book) → (g b).account.portfolio_id ≡ b.account.portfolio_id)
    → All
        (IsRowOf book.account.run_id book.account.portfolio_id)
        (account_and_positions ids (g (replay book fs)) updated_at).1
rows_of_replay ids book fs g updated_at run portfolio =
    let (run', portfolio') = replay_account book fs in
    let rows = rows_of_account ids (g (replay book fs)) updated_at in
    All-map _ _ _
      (λ p e. (e.0 ∙ run (replay book fs) ∙ run', e.1 ∙ portfolio (replay book fs) ∙ portfolio'))
      rows

mark_latest_same :
    (db db' : Session) (ps : Positions)
    → ((symbol : ℕ) → db'.candles symbol ≡ db.candles symbol)
    → mark_latest db' ps ≡ mark_latest db ps
unfolding mark_latest latest_candle
mark_latest_same db db' [] same = refl
mark_latest_same db db' ((k, p) ∷ ps) same = rw (same k, mark_latest_same db db' ps same) refl

-- The rebuilt state depends on the fills and the candles only.
pub rebuild_same :
    (db db' : Session) (run_id portfolio_id starting_cash : ℕ)
    → db'.fills ≡ db.fills
    → ((symbol : ℕ) → db'.candles symbol ≡ db.candles symbol)
    → rebuild_state_from_fills db' run_id portfolio_id starting_cash
      ≡ rebuild_state_from_fills db run_id portfolio_id starting_cash
unfolding rebuild_state_from_fills list_fills_by_portfolio
rebuild_same db db' run_id portfolio_id starting_cash fills same =
    rw (fills, mark_latest_same db db' _ same) refl

pub rebuild_account :
    (db : Session) (run_id portfolio_id starting_cash : ℕ)
    → let account = (rebuild_state_from_fills db run_id portfolio_id starting_cash).account in
      (account.run_id ≡ run_id) × (account.portfolio_id ≡ portfolio_id)
unfolding rebuild_state_from_fills
rebuild_account db run_id portfolio_id starting_cash =
    replay_account (opening_book run_id portfolio_id starting_cash)
      (list_fills_by_portfolio db portfolio_id)
