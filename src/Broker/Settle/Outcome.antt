-- ===== src/Broker/Settle/Outcome.antt =====
-- What a round of the settlement loop can come to.
use taurus_agent.Base.{ℕ, suc, ◌+◌, ◌-◌, ◌≤◌, ◌≡◌, ◌⊎◌, false, [], ◌∷◌, ◌==◌, if◌then◌else◌, length}
use taurus_agent.Execution.{
  OrderSide, buy, sell, OrderStatus, filled, partially_filled, pending_next_open, status_eq,
  PaperOrder, PaperFill,
}
use taurus_agent.Store.Writes.{store_replacement}
use taurus_agent.Broker.State.{apply_fill, held, Positions}
use taurus_agent.Broker.Settle.{Progress, requested_quantity}

-- A sale is within the holding.
abbrev pub IsHeldIn : OrderSide → Positions → (symbol n : ℕ) → Type 0
IsHeldIn buy positions symbol n = Unit
IsHeldIn sell positions symbol n = n ≤ held symbol positions

-- The row is passed over: it waits for a candle, or it has no signal date.
pub record IsPassed (p p' : Progress) : Type 0 where
  pub db : p'.db ≡ p.db
  pub book : p'.book ≡ p.book
  pub settled : p'.settled ≡ p.settled
  pub rejected : p'.rejected ≡ p.rejected
  pub passed : p'.still_pending + p'.skipped ≡ suc (p.still_pending + p.skipped)

-- What became of the order: nothing was filled, or one fill was applied.
abbrev pub IsFilledBy : PaperOrder → PaperOrder → Progress → Progress → Type 0
IsFilledBy order new p p' =
    ((new.status ≡ OrderStatus.rejected)
      × (new.filled_quantity ≡ 0)
      × (p'.book ≡ p.book)
      × (p'.db ≡ store_replacement p.db order.order_id new [])
      × (p'.rejected ≡ suc p.rejected)
      × (p'.settled ≡ p.settled))
    ⊎ ((fill : PaperFill) × (new.filled_quantity ≡ fill.quantity)
        × (new.status
            ≡ (if fill.quantity == requested_quantity order then filled else partially_filled))
        × (1 ≤ fill.quantity)
        × (fill.quantity ≤ requested_quantity order)
        × IsHeldIn order.side p.book.positions order.symbol fill.quantity
        × (p'.book ≡ apply_fill p.book fill)
        × (p'.db ≡ store_replacement p.db order.order_id new (fill ∷ []))
        × (p'.settled ≡ suc p.settled)
        × (p'.rejected ≡ p.rejected))

-- The row ends: its order is replaced by a copy that is no longer pending.
pub record IsTerminated (order : PaperOrder) (p p' : Progress) : Type 0 where
  pub new : PaperOrder
  pub same_id : new.order_id ≡ order.order_id
  pub same_decision : new.final_decision_id ≡ order.final_decision_id
  pub same_quantity : new.quantity ≡ order.quantity
  pub remaining : new.remaining_quantity ≡ order.quantity - new.filled_quantity
  pub not_pending : status_eq new.status pending_next_open ≡ false
  pub filled_by : IsFilledBy order new p p'
  pub still_pending : p'.still_pending ≡ p.still_pending
  pub skipped : p'.skipped ≡ p.skipped

pub record RowDone (order : PaperOrder) (p p' : Progress) : Type 0 where
  pub details : length p'.details ≡ suc (length p.details)
  pub effect : IsPassed p p' ⊎ IsTerminated order p p'
