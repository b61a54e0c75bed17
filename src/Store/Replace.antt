-- ===== src/Store/Replace.antt =====
-- What `replace_pending_next_open_order` accepts, and what it then writes.
use taurus_agent.Base.{
  ℕ, ◌≡◌, refl, ◌⊎◌, inl, inr, true, false, not, ◌&&◌, ◌||◌, List, some, ◌==◌, any_of, arith, ok,
  Returns, >>=-eq-ok, raise_if-eq-ok, or_raise, ok_injective, order_missing, order_not_pending,
  order_id_changed, decision_changed, bad_replacement_status, fills_required, fills_forbidden,
}
use taurus_agent.Execution.{PaperOrder, PaperFill, OrderStatus, status_eq, pending_next_open}
use taurus_agent.Store.Tables.{Session}
use taurus_agent.Store.Writes.{
  find_order, has_rows, is_fill_status, store_replacement, replace_pending_next_open_order,
}

-- A successful call has written the replacement.
pub replace-writes :
    (db : Session) (id : ℕ) (order : PaperOrder) (fills : List PaperFill) {db' : Session}
    → replace_pending_next_open_order db id order fills ≡ ok db'
    → store_replacement db id order fills ≡ db'
unfolding replace_pending_next_open_order
replace-writes db id order fills h =
    let (old, found, h) = >>=-eq-ok (or_raise (find_order id db.orders) order_missing) _ h in
    let (_, h) =
      raise_if-eq-ok (not (status_eq old.status pending_next_open)) order_not_pending _ h in
    let (_, h) = raise_if-eq-ok (not (order.order_id == id)) order_id_changed _ h in
    let (_, h) =
      raise_if-eq-ok (not (order.final_decision_id == old.final_decision_id)) decision_changed _
        h in
    let (_, h) =
      raise_if-eq-ok
        (not (is_fill_status order.status || status_eq order.status OrderStatus.rejected))
        bad_replacement_status _ h in
    let (_, h) =
      raise_if-eq-ok (is_fill_status order.status && not (has_rows fills)) fills_required _ h in
    let (_, h) =
      raise_if-eq-ok (status_eq order.status OrderStatus.rejected && has_rows fills) fills_forbidden
        _ h in
    let (_, h) = raise_if-eq-ok (any_of (λ f. not (f.order_id == id)) fills) order_id_changed _ h in
    let (_, h) =
      raise_if-eq-ok (any_of (λ f. not (f.final_decision_id == old.final_decision_id)) fills)
        decision_changed _ h in
    ok_injective h

-- Fills come with a fill status, and none with a rejection.
abbrev pub IsOutcome : OrderStatus → List PaperFill → Type 0
IsOutcome status fills =
    ((is_fill_status status ≡ true)
      × (status_eq status OrderStatus.rejected ≡ false)
      × (has_rows fills ≡ true))
    ⊎ ((is_fill_status status ≡ false)
        × (status_eq status OrderStatus.rejected ≡ true)
        × (has_rows fills ≡ false))

-- What the replacement of a pending order must be.
pub record IsReplacement (old order : PaperOrder) (fills : List PaperFill) : Type 0 where
  pub pending : status_eq old.status pending_next_open ≡ true
  pub same_id : order.order_id ≡ old.order_id
  pub same_decision : order.final_decision_id ≡ old.final_decision_id
  pub outcome : IsOutcome order.status fills
  pub fill_ids : any_of (λ f. not (f.order_id == old.order_id)) fills ≡ false
  pub fill_decisions :
      any_of (λ f. not (f.final_decision_id == old.final_decision_id)) fills ≡ false

-- A replacement of the pending order that the key finds is accepted.
pub replace-Returns :
    (db : Session) (old order : PaperOrder) (fills : List PaperFill)
    → find_order old.order_id db.orders ≡ some old
    → IsReplacement old order fills
    → Returns (replace_pending_next_open_order db old.order_id order fills)
unfolding replace_pending_next_open_order
replace-Returns db old order fills found r =
    let same : (order.order_id == old.order_id) ≡ true = ground arith in
    let decision : (order.final_decision_id == old.final_decision_id) ≡ true = ground arith in
    elim r.outcome [
      | inl (is_fill, not_rejected, rows) ↦
          rw
            (
              found, r.pending, same, decision, is_fill, not_rejected, rows, r.fill_ids,
              r.fill_decisions,
            )
            (_, refl)
      | inr (is_fill, not_rejected, rows) ↦
          rw
            (
              found, r.pending, same, decision, is_fill, not_rejected, rows, r.fill_ids,
              r.fill_decisions,
            )
            (_, refl)
    ]
