-- ===== src/Broker/Settle/Rounds.antt =====
-- One round of the settlement loop.
use mathlib.Core.Path.{subst}
use taurus_agent.Base.{
  ℕ, ◌+◌, ◌≤◌, ◌≡◌, refl, sym, ◌∙◌, inl, inr, Bool, true, false, List, [], ◌∷◌, Option, none, some,
  ◌==◌, if◌then◌else◌, ok, >>=-eq-ok, ok_injective, length-append, arith, Bool-cases,
}
use taurus_agent.Execution.{
  OrderSide, buy, sell, OrderStatus, filled, partially_filled, pending_next_open, status_eq,
  PaperOrder, PaperFill, Settings, IdScheme, RejectionReason, no_remaining_quantity,
}
use taurus_agent.Store.{Candle}
use taurus_agent.Store.Writes.{replace_pending_next_open_order}
use taurus_agent.Store.Replace.{replace-writes}
use taurus_agent.Store.Queries.{first_candle_after_signal}
use taurus_agent.Broker.State.{Book}
use taurus_agent.Broker.Fills.{build_next_open_fill}
use taurus_agent.Broker.Fills.Built.{build_next_open_fill-units}
use taurus_agent.Broker.Affordable.{affordable_quantity}
use taurus_agent.Broker.Affordable.Optimal.{affordable_quantity_optimal, Affords}
use taurus_agent.Broker.Orders.{terminal_pending_order}
use taurus_agent.Broker.Settle.{
  Progress, requested_quantity, reject_row, fill_row, execute_row, settle_on, settle_signed,
  settle_row, settlement_detail, unaffordable_reason,
}
use taurus_agent.Broker.Settle.Outcome.{IsHeldIn, RowDone}

module _ (ids : IdScheme) (s : Settings) (run_id timestamp : ℕ) where
  reject_row-RowDone :
      (p : Progress) (order : PaperOrder) (candle : Candle) (reason : RejectionReason)
      {p' : Progress}
      → reject_row ids s run_id timestamp p order candle reason ≡ ok p'
      → RowDone order p p'
  unfolding reject_row terminal_pending_order
  reject_row-RowDone p order candle reason {p'} h =
      let (db, replaced, e) =
        >>=-eq-ok (replace_pending_next_open_order p.db order.order_id _ []) _ h in
      subst (RowDone order p) (ok_injective e) (record {
        details = length-append p.details (_ ∷ []) ∙ omega arith;
        effect = inr (record {
          new =
              terminal_pending_order order OrderStatus.rejected
                (timestamp + (p.terminal_sequence + 1)) candle.trade_date none (some reason);
          same_id = refl;
          same_decision = refl;
          same_quantity = refl;
          remaining = refl;
          not_pending = refl;
          filled_by = inl (
            refl,
            refl,
            refl,
            sym (replace-writes p.db order.order_id _ [] replaced),
            omega arith,
            refl,
          );
          still_pending = refl;
          skipped = refl;
        });
      })

  fill_row-RowDone :
      (p : Progress) (order : PaperOrder) (candle : Candle) (affordable : ℕ) {p' : Progress}
      → 1 ≤ affordable
      → affordable ≤ requested_quantity order
      → IsHeldIn order.side p.book.positions order.symbol affordable
      → fill_row ids s run_id timestamp p order candle (requested_quantity order) affordable ≡ ok p'
      → RowDone order p p'
  unfolding fill_row terminal_pending_order
  fill_row-RowDone p order candle affordable {p'} some_units within covered h =
      let (fill, built, rest) =
        >>=-eq-ok
          (build_next_open_fill ids s order run_id affordable candle.open_price candle.trade_date
            (timestamp + (p.terminal_sequence + 1)))
          _ h in
      let (db, replaced, e) =
        >>=-eq-ok (replace_pending_next_open_order p.db order.order_id _ (fill ∷ [])) _ rest in
      let units =
        (build_next_open_fill-units ids s order run_id affordable candle.open_price
          candle.trade_date (timestamp + (p.terminal_sequence + 1)) built).0 in
      let status : OrderStatus =
        if affordable == requested_quantity order then filled else partially_filled in
      subst (RowDone order p) (ok_injective e) (record {
        details = length-append p.details (_ ∷ []) ∙ omega arith;
        effect = inr (record {
          new =
              terminal_pending_order order status fill.filled_at candle.trade_date (some fill) none;
          same_id = refl;
          same_decision = refl;
          same_quantity = refl;
          remaining = refl;
          not_pending = fill_status_terminal (affordable == requested_quantity order);
          filled_by = inr (
            fill,
            refl,
            rw units refl,
            omega (arith, units),
            omega (arith, units),
            rw units covered,
            refl,
            sym (replace-writes p.db order.order_id _ (fill ∷ []) replaced),
            omega arith,
            refl,
          );
          still_pending = refl;
          skipped = refl;
        });
      })
    where
      fill_status_terminal :
          (whole : Bool)
          → status_eq (if whole then filled else partially_filled) pending_next_open ≡ false
      fill_status_terminal true = refl
      fill_status_terminal false = refl

  -- What can be filled is within the request, and for a sale within the holding.
  affordable_within :
      (order : PaperOrder) (requested : ℕ) (fills : List PaperFill) (book : Book)
      → let n =
          affordable_quantity order.side requested fills book.account.available_cash_inr
            book.positions order.symbol in
        (n ≤ requested) × IsHeldIn order.side book.positions order.symbol n
  affordable_within order requested fills book = go order.side _ (
      affordable_quantity_optimal order.side requested order.symbol fills
        book.account.available_cash_inr book.positions)
    where
      go :
          (side : OrderSide) (n : ℕ)
          → Affords side requested order.symbol fills book.account.available_cash_inr book.positions
              n
          → (n ≤ requested) × IsHeldIn side book.positions order.symbol n
      go buy n (inl (whole, paid)) = (omega arith, tt)
      go buy n (inr (short, largest)) = (largest.bounded, tt)
      go sell n (within, covered, exact) = (within, covered)

  execute_row-RowDone :
      (p : Progress) (order : PaperOrder) (candle : Candle) {p' : Progress}
      → execute_row ids s run_id timestamp p order candle ≡ ok p'
      → RowDone order p p'
  unfolding execute_row
  execute_row-RowDone p order candle h = elim (Bool-cases (requested_quantity order == 0)) [
    | inl nothing ↦ reject_row-RowDone p order candle no_remaining_quantity (rw nothing at h)
    | inr asked ↦
        let (preview, built, rest) =
          >>=-eq-ok
            (build_next_open_fill ids s order run_id (requested_quantity order) candle.open_price
              candle.trade_date timestamp)
            _ (rw asked at h) in
        let affordable =
          affordable_quantity order.side (requested_quantity order) (preview ∷ [])
            p.book.account.available_cash_inr p.book.positions order.symbol in
        let (within, covered) =
          affordable_within order (requested_quantity order) (preview ∷ []) p.book in
        elim (Bool-cases (affordable == 0)) [
          | inl none_left ↦
              reject_row-RowDone p order candle (unaffordable_reason order.side)
                (rw none_left at rest)
          | inr some_units ↦
              fill_row-RowDone p order candle affordable (ground arith) within covered
                (rw some_units at rest)
        ]
  ]

  settle_on-RowDone :
      (p : Progress) (order : PaperOrder) (candle : Option Candle) {p' : Progress}
      → settle_on ids s run_id timestamp p order candle ≡ ok p'
      → RowDone order p p'
  unfolding settle_on settlement_detail
  settle_on-RowDone p order (some candle) h = execute_row-RowDone p order candle h
  settle_on-RowDone p order none h = subst (RowDone order p) (ok_injective h) (record {
    details = length-append p.details (_ ∷ []) ∙ omega arith;
    effect =
        inl (record {
          db = refl;
          book = refl;
          settled = refl;
          rejected = refl;
          passed = omega arith;
        });
  })

  settle_signed-RowDone :
      (p : Progress) (order : PaperOrder) (signal : Option ℕ) {p' : Progress}
      → settle_signed ids s run_id timestamp p order signal ≡ ok p'
      → RowDone order p p'
  unfolding settle_signed settlement_detail
  settle_signed-RowDone p order (some signal) h =
      settle_on-RowDone p order (first_candle_after_signal p.db order.symbol signal) h
  settle_signed-RowDone p order none h = subst (RowDone order p) (ok_injective h) (record {
    details = length-append p.details (_ ∷ []) ∙ omega arith;
    effect =
        inl (record {
          db = refl;
          book = refl;
          settled = refl;
          rejected = refl;
          passed = omega arith;
        });
  })

-- A round of the settlement passes its order over, with the session and the book as they are; or it
-- replaces the order by a copy that is no longer pending. The copy is rejected with nothing filled;
-- or one fill of at least a unit and at most the remaining ones, and for a sale within the holding,
-- is stored and applied to the book, and the copy is filled or partly filled by it. The outcome is
-- counted once, and gets one detail.
pub settle_row_outcome :
    (ids : IdScheme) (s : Settings) (run_id timestamp : ℕ) (p : Progress) (order : PaperOrder)
    {p' : Progress}
    → settle_row ids s run_id timestamp p order ≡ ok p'
    → RowDone order p p'
unfolding settle_row
settle_row_outcome ids s run_id timestamp p order h =
    settle_signed-RowDone ids s run_id timestamp p order order.signal_trade_date h
