-- ===== src/Store/Writes.antt =====
-- The writing methods of `ExecutionRepository`.
use taurus_agent.Base.{
  ℕ, Bool, true, false, not, ◌&&◌, ◌||◌, List, [], ◌∷◌, ◌++◌, Option, none, some, ◌==◌,
  if◌then◌else◌, keep_if, any_of, first_of_list, Result, ok, raise_if, or_raise, ◌>>=◌, ◌>>◌,
  order_missing, order_not_pending, order_id_changed, decision_changed, bad_replacement_status,
  fills_required, fills_forbidden, not_a_pending_order,
}
use taurus_agent.Execution.{
  PaperOrder, PaperFill, PaperAccount, PaperPosition, OrderStatus, status_eq, ExecutionPolicy,
  pending_next_open, partially_filled, filled,
}
use taurus_agent.Store.Tables.{
  Session, AuditLog, order_executed, order_pending_next_open, pending_next_open_order_replaced,
  order_rejected,
}

-- `delete_execution_for_final_decision`; every audit row of the model has a `paper.` event type.
unfoldable pub delete_execution_for_final_decision : Session → ℕ → Session
delete_execution_for_final_decision db decision = record db {
  fills = keep_if (λ f. not (f.final_decision_id == decision)) db.fills;
  orders = keep_if (λ o. not (o.final_decision_id == decision)) db.orders;
  audit = keep_if (λ a. not (a.final_decision_id == decision)) db.audit;
}

-- Replaces the row with the account's primary key, or adds the account.
abbrev pub upsert_account : PaperAccount → List PaperAccount → List PaperAccount
upsert_account account [] = account ∷ []
upsert_account account (a ∷ rows) =
    if a.account_id == account.account_id then account ∷ rows else a ∷ upsert_account account rows

-- `replace_account_state`
unfoldable pub replace_account_state :
    Session → (run_id portfolio_id : ℕ) → PaperAccount → List PaperPosition → Session
replace_account_state db run_id portfolio_id account positions = record db {
  positions =
      keep_if (λ p. not (p.run_id == run_id && p.portfolio_id == portfolio_id)) db.positions
      ++ positions;
  accounts = upsert_account account db.accounts;
}

-- What the three storing methods share: the old execution goes, an order, its fills and an audit row
-- come, and the account state is replaced.
abbrev pub store_execution :
    Session → PaperOrder → List PaperFill → PaperAccount → List PaperPosition → AuditLog → Session
store_execution db order fills account positions log =
    let cleared = delete_execution_for_final_decision db order.final_decision_id in
    let added = record cleared {
      orders = cleared.orders ++ order ∷ [];
      fills = cleared.fills ++ fills;
      audit = cleared.audit ++ log ∷ [];
    } in
    replace_account_state added order.run_id order.portfolio_id account positions

unfoldable pub replace_order_execution :
    Session → PaperOrder → List PaperFill → PaperAccount → List PaperPosition → Session
unfolding delete_execution_for_final_decision replace_account_state
replace_order_execution db order fills account positions =
    store_execution db order fills account positions (record {
      event_type = order_executed;
      order_id = order.order_id;
      final_decision_id = order.final_decision_id;
    })

unfoldable pub store_rejected_order :
    Session → PaperOrder → PaperAccount → List PaperPosition → Session
unfolding delete_execution_for_final_decision replace_account_state
store_rejected_order db order account positions =
    store_execution db order [] account positions (record {
      event_type = order_rejected;
      order_id = order.order_id;
      final_decision_id = order.final_decision_id;
    })

-- `execution_policy == "next_open" and scheduled_fill_session == "next_open"`
abbrev pub has_next_open_metadata : PaperOrder → Bool
has_next_open_metadata order = elim order.execution_policy [
  | ExecutionPolicy.immediate ↦ false
  | ExecutionPolicy.next_open ↦ elim order.scheduled_fill_session [ none ↦ false | some _ ↦ true ]
]

-- `store_pending_next_open_order`, with the account and the positions given.
unfoldable pub store_pending_next_open_order :
    Session → PaperOrder → PaperAccount → List PaperPosition → Result Session
unfolding delete_execution_for_final_decision replace_account_state
store_pending_next_open_order db order account positions = do
  raise_if (not (status_eq order.status pending_next_open)) not_a_pending_order
  raise_if (not (has_next_open_metadata order)) not_a_pending_order
  ok (
      store_execution db order [] account positions (record {
        event_type = order_pending_next_open;
        order_id = order.order_id;
        final_decision_id = order.final_decision_id;
      }))

-- The row with the primary key `order_id`.
abbrev pub find_order : ℕ → List PaperOrder → Option PaperOrder
find_order order_id = first_of_list (λ o. o.order_id == order_id)

-- `_update_paper_order_model` on the row with the primary key `order_id`.
abbrev pub update_order : ℕ → PaperOrder → List PaperOrder → List PaperOrder
update_order order_id order [] = []
update_order order_id order (o ∷ rows) =
    if o.order_id == order_id then order ∷ rows else o ∷ update_order order_id order rows

-- `status in {"FILLED", "PARTIALLY_FILLED"}`
abbrev pub is_fill_status : OrderStatus → Bool
is_fill_status status = status_eq status filled || status_eq status partially_filled

abbrev pub has_rows : List PaperFill → Bool
has_rows [] = false
has_rows (_ ∷ _) = true

-- The writes of `replace_pending_next_open_order`: the fills of the order, its row, an audit row.
abbrev pub store_replacement : Session → ℕ → PaperOrder → List PaperFill → Session
store_replacement db order_id order fills = record db {
  fills = keep_if (λ f. not (f.order_id == order_id)) db.fills ++ fills;
  orders = update_order order_id order db.orders;
  audit =
      db.audit
      ++ (record {
        event_type = pending_next_open_order_replaced;
        order_id = order.order_id;
        final_decision_id = order.final_decision_id;
      })
        ∷ [];
}

-- `replace_pending_next_open_order`, called with no account and no positions.
unfoldable pub replace_pending_next_open_order :
    Session → ℕ → PaperOrder → List PaperFill → Result Session
replace_pending_next_open_order db order_id order fills = do
  pending_order ← or_raise (find_order order_id db.orders) order_missing
  raise_if (not (status_eq pending_order.status pending_next_open)) order_not_pending
  raise_if (not (order.order_id == order_id)) order_id_changed
  raise_if (not (order.final_decision_id == pending_order.final_decision_id)) decision_changed
  raise_if (not (is_fill_status order.status || status_eq order.status OrderStatus.rejected))
      bad_replacement_status
  raise_if (is_fill_status order.status && not (has_rows fills)) fills_required
  raise_if (status_eq order.status OrderStatus.rejected && has_rows fills) fills_forbidden
  raise_if (any_of (λ f. not (f.order_id == order_id)) fills) order_id_changed
  raise_if (any_of (λ f. not (f.final_decision_id == pending_order.final_decision_id)) fills)
      decision_changed
  ok (store_replacement db order_id order fills)
