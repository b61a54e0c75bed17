-- ===== src/Broker/Cancel/Laws.antt =====
-- What `cancel_order` does to the orders.
use mathlib.Core.Path.{subst}
use taurus_agent.Base.{
  ℕ, ◌≡◌, ◌≢◌, refl, ap, inl, inr, true, false, Option, none, some, ok, or_raise, >>=-eq-ok,
  ok_injective, Bool-cases, order_missing,
}
use taurus_agent.Execution.{PaperOrder}
use taurus_agent.Store.{Session}
use taurus_agent.Store.Writes.{find_order, update_order}
use taurus_agent.Store.Keys.{find_order-id, find_order-updated, find_order-update_order}
use taurus_agent.Broker.Cancel.{is_final, cancelled_order, cancel_order, get_order}

or_raise-ok : {A : Type 0} (o : Option A) {a : A} → or_raise o order_missing ≡ ok a → o ≡ some a
or_raise-ok none h = cc
or_raise-ok (some a) h = ap some (ok_injective h)

-- What a cancellation leaves.
pub record IsCancelled (db : Session) (id : ℕ) (o : PaperOrder) (db' : Session) : Type 0 where
  pub old : PaperOrder
  pub was : get_order db id ≡ some old
  pub final : is_final o.status ≡ true
  pub stored : get_order db' id ≡ some o
  pub kept : is_final old.status ≡ true → (o ≡ old) × (db' ≡ db)
  pub filled : o.filled_quantity ≡ old.filled_quantity
  pub others : (i : ℕ) → i ≢ id → get_order db' i ≡ get_order db i
  pub fills : db'.fills ≡ db.fills
  pub again : cancel_order db' id ≡ ok (o, db')

module _ (db : Session) (id : ℕ) (old : PaperOrder) (was : find_order id db.orders ≡ some old) where
  final_kept : is_final old.status ≡ true → IsCancelled db id old db
  unfolding cancel_order get_order
  final_kept final = record {
    old = old;
    was = was;
    final = final;
    stored = was;
    kept = λ h. (refl, refl);
    filled = refl;
    others = λ i h. refl;
    fills = refl;
    again = rw (was, final) refl;
  }

  open-IsCancelled :
      is_final old.status ≡ false
      → IsCancelled db id
          (cancelled_order old)
          (record db { orders = update_order id (cancelled_order old) db.orders })
  unfolding cancel_order get_order cancelled_order
  open-IsCancelled running =
      let key = find_order-id id db.orders was in
      let stored = find_order-updated id old (cancelled_order old) db.orders was key in
      record {
        old = old;
        was = was;
        final = refl;
        stored = stored;
        kept = λ h. cc;
        filled = refl;
        others = λ i h. find_order-update_order i id (cancelled_order old) db.orders key h;
        fills = refl;
        again = rw stored refl;
      }

-- A cancellation returns the order that its id then finds, which is final: it is filled, rejected or
-- cancelled. An order that was final is returned as it was, with the session unchanged. The filled
-- units, all fills and the orders of other ids are kept, and cancelling once more changes nothing.
pub cancel_order_final :
    (db : Session) (id : ℕ) {o : PaperOrder} {db' : Session}
    → cancel_order db id ≡ ok (o, db')
    → IsCancelled db id o db'
unfolding cancel_order
cancel_order_final db id {o} {db'} h =
    let (old, found, rest) = >>=-eq-ok (or_raise (find_order id db.orders) order_missing) _ h in
    let was = or_raise-ok (find_order id db.orders) found in
    elim (Bool-cases (is_final old.status)) [
      | inl final ↦
          subst (λ r. IsCancelled db id r.0 r.1) (ok_injective (rw final at rest))
            (final_kept db id old was final)
      | inr running ↦
          subst (λ r. IsCancelled db id r.0 r.1) (ok_injective (rw running at rest))
            (open-IsCancelled db id old was running)
    ]
