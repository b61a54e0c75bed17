-- ===== src/Broker/Settle/Loop.antt =====
-- The settlement loop, and `settle_pending_next_open_orders` as a whole.
use mathlib.Core.Path.{subst}
use taurus_agent.Base.{
  ℕ, suc, ◌+◌, ◌≡◌, refl, ap, ◌∙◌, inl, inr, Bool, true, false, not, ◌&&◌, List, [], ◌∷◌, Option,
  ◌==◌, ok, raise_if-eq-ok, >>=-eq-ok, ok_injective, keep_if, keep_if-All, All-sort_by, All-keep_if,
  All, length, length-sort_by, arith, profile_mismatch,
}
use taurus_agent.Execution.{PaperOrder, Settings, IdScheme, NextOpenSettlementSummary}
use taurus_agent.Store.{Session}
use taurus_agent.Store.Checked.{checked-eq-ok}
use taurus_agent.Store.Writes.{update_order, replace_account_state}
use taurus_agent.Store.Keys.{
  IsFresh, HasUniqueIds, IsFoundIn, find_own, HasUniqueIds-keep_if, HasUniqueIds-sort_by,
  find_order-update_order, length-keep_if-update,
}
use taurus_agent.Store.Queries.{
  is_pending_for, order_before, list_pending_next_open_orders, resolve_runtime_profile,
}
use taurus_agent.Broker.State.{rebuild_state_from_fills}
use taurus_agent.Broker.Settle.{
  Progress, settle_row, settle_rows, start, finish, settle_unchecked,
  settle_pending_next_open_orders,
}
use taurus_agent.Broker.Settle.Outcome.{IsFilledBy, RowDone}
use taurus_agent.Broker.Settle.Rounds.{settle_row_outcome}

-- The rows whose order has ended, and all rows that have been seen.
abbrev pub ended : Progress → ℕ
ended p = p.settled + p.rejected

abbrev pub seen : Progress → ℕ
seen p = p.settled + p.rejected + p.still_pending + p.skipped

-- The orders after the end of one.
orders_after :
    (order new : PaperOrder) (p p' : Progress)
    → IsFilledBy order new p p'
    → p'.db.orders ≡ update_order order.order_id new p.db.orders
orders_after order new p p' (inl f) = ap (λ d. d.orders) f.3
orders_after order new p p' (inr f) = ap (λ d. d.orders) f.7

ended_after :
    (order new : PaperOrder) (p p' : Progress)
    → IsFilledBy order new p p'
    → ended p' ≡ suc (ended p)
ended_after order new p p' (inl f) = omega (arith, f.4, f.5)
ended_after order new p p' (inr f) = omega (arith, f.8, f.9)

seen_after : (order : PaperOrder) (p p' : Progress) → RowDone order p p' → seen p' ≡ suc (seen p)
seen_after order p p' r = elim r.effect [
  | inl passed ↦ omega (arith, passed.settled, passed.rejected, passed.passed)
  | inr done ↦
      omega
        (arith, ended_after order done.new p p' done.filled_by, done.still_pending, done.skipped)
]

-- The other rows are still found.
pub found_after :
    (order : PaperOrder) (p p' : Progress) (rows : List PaperOrder)
    → RowDone order p p'
    → IsFresh order.order_id rows
    → All (IsFoundIn p.db.orders) rows
    → All (IsFoundIn p'.db.orders) rows
found_after order p p' [] done fresh found = tt
found_after order p p' (r ∷ rows) done fresh found = (
  elim done.effect [
    | inl passed ↦ rw passed.db (found.0)
    | inr over ↦ rw (orders_after order over.new p p' over.filled_by) (
        find_order-update_order r.order_id order.order_id over.new p.db.orders over.same_id fresh.0
        ∙ found.0)
  ],
  found_after order p p' rows done fresh.1 found.1,
)

middle_false : (a b c : Bool) → b ≡ false → (a && b && c) ≡ false
middle_false a b c h = ground arith

module _ (portfolio_id : ℕ) (symbol : Option ℕ) where
  -- The number of orders that the query counts.
  abbrev pub pending_count : Session → ℕ
  pending_count db = length (keep_if (is_pending_for portfolio_id symbol) db.orders)

  pending_after :
      (order : PaperOrder) (p p' : Progress)
      → RowDone order p p'
      → IsFoundIn p.db.orders order
      → is_pending_for portfolio_id symbol order ≡ true
      → pending_count p'.db + ended p' ≡ pending_count p.db + ended p
  pending_after order p p' done found pending = elim done.effect [
    | inl passed ↦ rw (passed.db, passed.settled, passed.rejected) refl
    | inr over ↦
        let gone : is_pending_for portfolio_id symbol over.new ≡ false =
          middle_false _ _ _ over.not_pending in
        let counted =
          length-keep_if-update (is_pending_for portfolio_id symbol) order.order_id order over.new
            p.db.orders found pending gone in
        rw (orders_after order over.new p p' over.filled_by)
          (omega (arith, counted, ended_after order over.new p p' over.filled_by))
  ]

  module _ (ids : IdScheme) (s : Settings) (run_id timestamp : ℕ) where
    -- After the loop.
    pub record LoopDone (n : ℕ) (p p' : Progress) : Type 0 where
      pub seen_all : seen p' ≡ seen p + n
      pub detailed : length p'.details ≡ length p.details + n
      pub left : pending_count p'.db + ended p' ≡ pending_count p.db + ended p

    pub settle_rows-LoopDone :
        (p : Progress) (rows : List PaperOrder) {p' : Progress}
        → HasUniqueIds rows
        → All (IsFoundIn p.db.orders) rows
        → All (λ o. is_pending_for portfolio_id symbol o ≡ true) rows
        → settle_rows ids s run_id timestamp p rows ≡ ok p'
        → LoopDone (length rows) p p'
    unfolding settle_rows
    settle_rows-LoopDone p [] unique found pending h =
        subst (LoopDone 0 p) (ok_injective h)
          (record { seen_all = omega arith; detailed = omega arith; left = refl })
    settle_rows-LoopDone p (o ∷ rows) unique found pending h =
        let (next, round, rest) = >>=-eq-ok (settle_row ids s run_id timestamp p o) _ h in
        let done = settle_row_outcome ids s run_id timestamp p o round in
        let loop =
          settle_rows-LoopDone next rows unique.1 (found_after o p next rows done unique.0 found.1)
            pending.1 rest in
        record {
          seen_all = omega (arith, loop.seen_all, seen_after o p next done);
          detailed = omega (arith, loop.detailed, done.details);
          left = loop.left ∙ pending_after o p next done found.0 pending.0;
        }

  -- The pending rows are found by their keys, each once.
  pub pending_rows_ready :
      (db : Session)
      → HasUniqueIds db.orders
      → let rows = list_pending_next_open_orders db portfolio_id symbol in
        HasUniqueIds rows
        × All (IsFoundIn db.orders) rows
        × All (λ o. is_pending_for portfolio_id symbol o ≡ true) rows
        × (length rows ≡ pending_count db)
  unfolding list_pending_next_open_orders
  pending_rows_ready db unique =
      let pending = is_pending_for portfolio_id symbol in
      (
        HasUniqueIds-sort_by order_before _ (HasUniqueIds-keep_if pending db.orders unique),
        All-sort_by _ order_before _ (All-keep_if _ pending db.orders (find_own db.orders unique)),
        All-sort_by _ order_before _ (keep_if-All pending db.orders),
        length-sort_by order_before (keep_if pending db.orders),
      )

-- What the summary counts.
pub record IsTallied (portfolio_id : ℕ) (symbol : Option ℕ) (db : Session)
    (summary : NextOpenSettlementSummary) (db' : Session) : Type 0 where
  pub tally :
      summary.settled + summary.rejected + summary.still_pending + summary.skipped
      ≡ length (list_pending_next_open_orders db portfolio_id symbol)
  pub detailed :
      length summary.details ≡ length (list_pending_next_open_orders db portfolio_id symbol)
  pub left :
      length (list_pending_next_open_orders db' portfolio_id symbol)
      ≡ summary.still_pending + summary.skipped

-- Where the ids of the orders differ, a settlement counts each pending order of the portfolio once,
-- as settled, rejected, waiting or skipped, with one detail for each; and the orders that are pending
-- afterwards are as many as it counts as waiting or skipped.
pub settle_tally :
    (ids : IdScheme) (s : Settings) (db : Session) (portfolio_id run_id settled_at : ℕ)
    (symbol : Option ℕ) {summary : NextOpenSettlementSummary} {db' : Session}
    → HasUniqueIds db.orders
    → settle_pending_next_open_orders ids s db portfolio_id run_id settled_at symbol
      ≡ ok (summary, db')
    → IsTallied portfolio_id symbol db summary db'
unfolding settle_pending_next_open_orders settle_unchecked finish replace_account_state
    list_pending_next_open_orders
settle_tally ids s db portfolio_id run_id settled_at symbol {summary} {db'} unique h =
    let (unchecked, _) =
      checked-eq-ok (settle_unchecked ids s db portfolio_id run_id settled_at symbol) h in
    let (_, h) = raise_if-eq-ok (not (portfolio_id == s.profile_id)) profile_mismatch _ unchecked in
    let (corpus, funded, h) = >>=-eq-ok (resolve_runtime_profile db portfolio_id) _ h in
    let begin = start db (rebuild_state_from_fills db run_id portfolio_id corpus) in
    let rows = list_pending_next_open_orders db portfolio_id symbol in
    let (p, looped, e) = >>=-eq-ok (settle_rows ids s run_id settled_at begin rows) _ h in
    let (once, found, pending, counted) = pending_rows_ready portfolio_id symbol db unique in
    let loop =
      settle_rows-LoopDone portfolio_id symbol ids s run_id settled_at begin rows once found pending
        looped in
    let kept =
      length-sort_by order_before (keep_if (is_pending_for portfolio_id symbol) p.db.orders) in
    subst (λ r. IsTallied portfolio_id symbol db r.0 r.1) (ok_injective e)
      (record {
        tally = omega (arith, loop.seen_all);
        detailed = omega (arith, loop.detailed);
        left = omega (arith, kept, loop.left, loop.seen_all, counted);
      })
