-- ===== src/Broker/Cancel.antt =====
-- `PaperBroker.cancel_order`, `get_order`, `positions` and `cash`.
pub mod Laws
use taurus_agent.Base.{
  ℕ, ◌-◌, Bool, true, false, ◌||◌, List, [], ◌∷◌, ◌++◌, Option, none, some, ◌==◌, if◌then◌else◌,
  keep_if, Result, ok, err, or_raise, ◌>>=◌, order_missing,
}
use taurus_agent.Execution.{
  OrderStatus, filled, rejected, cancelled, status_eq, PaperOrder, PaperAccount, PaperPosition,
  Settings,
}
use taurus_agent.Store.{Session}
use taurus_agent.Store.Writes.{find_order, update_order}
use taurus_agent.Store.Queries.{
  latest_account_by_portfolio, latest_open_positions_by_portfolio, symbol_matches,
}

-- `status in {"FILLED", "REJECTED", "CANCELLED"}`
abbrev pub is_final : OrderStatus → Bool
is_final status = status_eq status filled || status_eq status rejected || status_eq status cancelled

-- The copy that `cancel_order` stores.
unfoldable pub cancelled_order : PaperOrder → PaperOrder
cancelled_order order = record order {
  status = cancelled;
  remaining_quantity = order.quantity - order.filled_quantity;
  status_history = order.status_history ++ cancelled ∷ [];
}

unfoldable pub cancel_order : Session → ℕ → Result (PaperOrder × Session)
cancel_order db order_id = do
  order ← or_raise (find_order order_id db.orders) order_missing
  if is_final order.status
      then ok (order, db)
      else ok (
        cancelled_order order,
        record db { orders = update_order order_id (cancelled_order order) db.orders },
      )

unfoldable pub get_order : Session → ℕ → Option PaperOrder
get_order db order_id = find_order order_id db.orders

unfoldable pub positions : Settings → Session → Option ℕ → List PaperPosition
positions s db symbol =
    keep_if (λ p. symbol_matches symbol p.symbol)
      (latest_open_positions_by_portfolio db s.profile_id)
