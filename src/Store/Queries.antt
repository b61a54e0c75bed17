-- ===== src/Store/Queries.antt =====
-- The reading methods: candles, profiles, and the selects of `ExecutionRepository` that the broker
-- makes. A select's rows are a stable sort of the table by the columns that it names.
use taurus_agent.Base.{
  ℕ, ◌+◌, Bool, true, false, not, ◌&&◌, ◌||◌, List, [], Option, none, some, ◌==◌, ltb, leb, keep_if,
  first_of_list, head_of, last_of, sort_by, Result, ok, or_raise, raise_if, ◌>>=◌, ◌>>◌,
  profile_missing, profile_archived, nonpositive_corpus,
}
use taurus_agent.Execution.{
  PaperOrder, PaperFill, PaperAccount, PaperPosition, status_eq, pending_next_open,
}
use taurus_agent.Store.Tables.{Session, Candle, ProfileStatus, active, archived}

-- `PaperBroker._latest_candle`
unfoldable pub latest_candle : Session → ℕ → Option Candle
latest_candle db symbol = last_of (db.candles symbol)

-- `PaperBroker._first_candle_after_signal`
unfoldable pub first_candle_after_signal : Session → ℕ → ℕ → Option Candle
first_candle_after_signal db symbol signal_trade_date =
    head_of (keep_if (λ c. leb (signal_trade_date + 1) c.trade_date) (db.candles symbol))

-- (filled_at, fill_sequence) in order
abbrev pub fill_before : PaperFill → PaperFill → Bool
fill_before a b =
    ltb a.filled_at b.filled_at
    || (a.filled_at == b.filled_at && leb a.fill_sequence b.fill_sequence)

-- `list_fills_by_portfolio`
unfoldable pub list_fills_by_portfolio : Session → ℕ → List PaperFill
list_fills_by_portfolio db portfolio_id =
    sort_by fill_before (keep_if (λ f. f.portfolio_id == portfolio_id) db.fills)

-- (submitted_at, order_id) in order
abbrev pub order_before : PaperOrder → PaperOrder → Bool
order_before a b =
    ltb a.submitted_at b.submitted_at
    || (a.submitted_at == b.submitted_at && leb a.order_id b.order_id)

-- `symbol is None or row.symbol == symbol`
abbrev pub symbol_matches : Option ℕ → ℕ → Bool
symbol_matches none symbol = true
symbol_matches (some wanted) symbol = symbol == wanted

-- The conditions of `list_pending_next_open_orders`.
abbrev pub is_pending_for : ℕ → Option ℕ → PaperOrder → Bool
is_pending_for portfolio_id symbol o =
    o.portfolio_id == portfolio_id
    && status_eq o.status pending_next_open
    && symbol_matches symbol o.symbol

-- `list_pending_next_open_orders` with no limit.
unfoldable pub list_pending_next_open_orders : Session → ℕ → Option ℕ → List PaperOrder
list_pending_next_open_orders db portfolio_id symbol =
    sort_by order_before (keep_if (is_pending_for portfolio_id symbol) db.orders)

-- (updated_at descending, account_id) in order
abbrev pub account_before : PaperAccount → PaperAccount → Bool
account_before a b =
    ltb b.updated_at a.updated_at || (a.updated_at == b.updated_at && leb a.account_id b.account_id)

-- `latest_account_by_portfolio`
unfoldable pub latest_account_by_portfolio : Session → ℕ → Option PaperAccount
latest_account_by_portfolio db portfolio_id =
    head_of (sort_by account_before (keep_if (λ a. a.portfolio_id == portfolio_id) db.accounts))

abbrev pub position_before : PaperPosition → PaperPosition → Bool
position_before a b = leb a.symbol b.symbol

-- `latest_open_positions_by_portfolio`
unfoldable pub latest_open_positions_by_portfolio : Session → ℕ → List PaperPosition
unfolding latest_account_by_portfolio
latest_open_positions_by_portfolio db portfolio_id =
    elim (latest_account_by_portfolio db portfolio_id) [
      | none ↦ []
      | some account ↦
          keep_if (λ p. ltb 0 p.quantity)
            (sort_by position_before (
              keep_if (λ p. p.run_id == account.run_id && p.portfolio_id == portfolio_id)
                db.positions))
    ]

-- `latest_open_position_by_portfolio_symbol`
unfoldable pub latest_open_position_by_portfolio_symbol : Session → ℕ → ℕ → Option PaperPosition
unfolding latest_account_by_portfolio
latest_open_position_by_portfolio_symbol db portfolio_id symbol =
    elim (latest_account_by_portfolio db portfolio_id) [
      | none ↦ none
      | some account ↦
          first_of_list
            (λ p.
              p.run_id == account.run_id
              && p.portfolio_id == portfolio_id
              && p.symbol == symbol
              && ltb 0 p.quantity)
            db.positions
    ]

abbrev is_active : ProfileStatus → Bool
is_active active = true
is_active archived = false

-- `resolve_runtime_profile` (profiles/runtime.py): the starting corpus of an active profile.
unfoldable pub resolve_runtime_profile : Session → ℕ → Result ℕ
resolve_runtime_profile db profile_id = do
  model ← or_raise (first_of_list (λ p. p.profile_id == profile_id) db.profiles) profile_missing
  raise_if (not (is_active model.status)) profile_archived
  raise_if (leb model.starting_corpus_inr 0) nonpositive_corpus
  ok model.starting_corpus_inr
