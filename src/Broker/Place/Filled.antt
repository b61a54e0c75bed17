-- ===== src/Broker/Place/Filled.antt =====
-- The immediate branch of `place_order` commits a filled or a rejected order; then all branches.
use taurus_agent.Base.{
  ℕ, ◌≤◌, ◌≡◌, refl, sym, ◌∙◌, List, arith, none, ◌==◌, sum_by, All, ok, >>=-eq-ok, ok_injective,
  Bool-cases, inl, inr, All-map,
}
use taurus_agent.Base.Int.{ℤ}
use taurus_agent.Execution.{
  OrderSide, buy, sell, ExecutionPolicy, immediate, next_open, PaperOrder, PaperFill, Settings,
  IsValidSettings, IdScheme, insufficient_cash_or_position, no_executable_quantity, no_valid_fill,
}
use taurus_agent.Store.{Session, Candle, order_executed}
use taurus_agent.Store.Writes.{has_rows, replace_order_execution}
use taurus_agent.Broker.State.{replay, account_and_positions}
use taurus_agent.Broker.Fills.{build_fills}
use taurus_agent.Broker.Fills.Built.{build_fills_carry}
use taurus_agent.Broker.Affordable.{affordable_quantity}
use taurus_agent.Broker.Affordable.Optimal.{affordable_quantity_optimal, Affords}
use taurus_agent.Broker.Orders.{filled_order}
use taurus_agent.Broker.Place.Decide.{execution_quantity}
use taurus_agent.Broker.State.Rows.{rows_of_replay}
use taurus_agent.Broker.Place.Outcome.{
  Call, signal_date, fill_request, marked, settle_fills, affordable_fills, place_affordable,
  place_immediate, place_by_policy, place_with_candle,
}
use taurus_agent.Broker.Place.Commit.{commit, IsHeld, Commits, extend, rejected-Commits}
use taurus_agent.Broker.Place.Pending.{next_open-Commits}

-- The affordable quantity is within the request, and for a sale within the holding.
affordable_limits :
    (call : Call) (quantity : ℕ) (fills : List PaperFill) (cash : ℤ)
    → let n =
        affordable_quantity call.side quantity fills cash call.book.positions
          call.decision.symbol in
      (n ≤ quantity) × IsHeld call.side call n
affordable_limits call quantity fills cash =
    go call.side
      (affordable_quantity call.side quantity fills cash call.book.positions call.decision.symbol)
      (affordable_quantity_optimal call.side quantity call.decision.symbol fills cash
        call.book.positions)
  where
    go :
        (side : OrderSide) (n : ℕ)
        → Affords side quantity call.decision.symbol fills cash call.book.positions n
        → (n ≤ quantity) × IsHeld side call n
    go buy n (inl (whole, paid)) = (omega arith, tt)
    go buy n (inr (short, largest)) = (largest.bounded, tt)
    go sell n (within, covered, exact) = (within, covered)

module _ (ids : IdScheme) (s : Settings) (valid : IsValidSettings s) (call : Call) where
  -- The fills that are settled have the affordable quantity, and carry the decision.
  affordable_fills_carry :
      (candle : Candle) (quantity affordable : ℕ) (fills : List PaperFill) {final : List PaperFill}
      → build_fills ids s (fill_request ids s call candle quantity candle.open_price) quantity
        ≡ ok fills
      → affordable_fills ids s call candle quantity affordable fills ≡ ok final
      → (sum_by (λ f. f.quantity) final ≡ affordable)
        × All (λ f. f.final_decision_id ≡ call.decision.final_decision_id) final
  unfolding affordable_fills
  affordable_fills_carry candle quantity affordable fills {final} built h =
      elim (Bool-cases (affordable == quantity)) [
        | inl same ↦
            let (units, carried) = build_fills_carry ids s _ quantity valid built in
            let e : fills ≡ final = ok_injective (rw same at h) in
            let e' : affordable ≡ quantity = ground arith in
            rw (← e) (units ∙ sym e', All-map _ _ fills (λ f c. c.0) carried)
        | inr fewer ↦
            let (units, carried) = build_fills_carry ids s _ affordable valid (rw fewer at h) in
            (units, All-map _ _ final (λ f c. c.0) carried)
      ]

  filled-Commits :
      (candle : Candle) (order_id quantity affordable : ℕ) (final : List PaperFill)
      → (sum_by (λ f. f.quantity) final ≡ affordable)
      → All (λ f. f.final_decision_id ≡ call.decision.final_decision_id) final
      → affordable ≤ quantity
      → IsHeld call.side call affordable
      → Commits s call quantity
          (λ db. ok (settle_fills ids s db call candle order_id quantity final))
  unfolding settle_fills replace_order_execution filled_order commit
  filled-Commits candle order_id quantity affordable final units carried within covered =
      let book = marked call.decision candle (replay call.book final) in
      record {
        out = record {
          order = filled_order ids s call.decision call.side order_id quantity final call.timestamp;
          fills = final;
          account = (account_and_positions ids book call.timestamp).0;
          positions = (account_and_positions ids book call.timestamp).1;
          log = record {
            event_type = order_executed;
            order_id = order_id;
            final_decision_id = call.decision.final_decision_id;
          };
        };
        sound = record {
          decision = refl;
          log_decision = refl;
          fill_decisions = carried;
          units = refl;
          balance = omega arith;
          limited = omega arith;
          covered = rw units covered;
          order_run = refl;
          order_portfolio = refl;
          rows =
              rows_of_replay ids call.book final (marked call.decision candle) call.timestamp
                (λ b. refl) (λ b. refl);
        };
        commits = λ db. refl;
      }

  affordable-Commits :
      (candle : Candle) (quantity affordable : ℕ) (fills : List PaperFill) (db : Session)
      {x : PaperOrder × Session}
      → build_fills ids s (fill_request ids s call candle quantity candle.open_price) quantity
        ≡ ok fills
      → affordable ≤ quantity
      → IsHeld call.side call affordable
      → place_affordable ids s db call candle quantity affordable fills ≡ ok x
      → Commits s call quantity
          (λ d. place_affordable ids s d call candle quantity affordable fills)
  unfolding place_affordable
  affordable-Commits candle quantity affordable fills db built within covered h =
      elim (Bool-cases (affordable == 0)) [
        | inl nothing ↦
            extend _
              (rejected-Commits ids s call quantity quantity insufficient_cash_or_position none)
              (λ d. rw nothing)
        | inr some_units ↦
            let (final, found, e) =
              >>=-eq-ok (affordable_fills ids s call candle quantity affordable fills) _
                (rw some_units at h) in
            let (units, carried) =
              affordable_fills_carry candle quantity affordable fills built found in
            extend _
              (filled-Commits candle
                (ids.paper_order_id call.decision.final_decision_id call.decision.decision_id
                  affordable)
                quantity affordable final units carried within covered)
              (λ d. rw (some_units, found))
      ]

  immediate-Commits :
      (candle : Candle) (quantity : ℕ) (db : Session) {x : PaperOrder × Session}
      → place_immediate ids s db call candle quantity ≡ ok x
      → Commits s call quantity (λ d. place_immediate ids s d call candle quantity)
  unfolding place_immediate
  immediate-Commits candle quantity db h =
      let (fills, built, rest) = >>=-eq-ok (build_fills ids s _ quantity) _ h in
      elim (Bool-cases (has_rows fills)) [
        | inl rows ↦
            let (within, covered) =
              affordable_limits call quantity fills call.book.account.available_cash_inr in
            extend _
              (affordable-Commits candle quantity _ fills db built within covered (rw rows at rest))
              (λ d. rw (built, rows))
        | inr no_rows ↦
            extend _ (rejected-Commits ids s call quantity quantity no_valid_fill none)
              (λ d. rw (built, no_rows))
      ]

  policy-Commits :
      (policy : ExecutionPolicy) (candle : Candle) (quantity : ℕ) (db : Session)
      {x : PaperOrder × Session}
      → place_by_policy ids s db call policy candle quantity ≡ ok x
      → Commits s call quantity (λ d. place_by_policy ids s d call policy candle quantity)
  unfolding place_by_policy
  policy-Commits next_open candle quantity db h = next_open-Commits ids s call candle quantity db h
  policy-Commits immediate candle quantity db h = immediate-Commits candle quantity db h

  -- The limit on the units of an order.
  abbrev pub limit_at : Candle → ℕ
  limit_at candle = execution_quantity call.decision call.book candle.close_price

  pub candle-Commits :
      (candle : Candle) (db : Session) {x : PaperOrder × Session}
      → place_with_candle ids s db call candle ≡ ok x
      → Commits s call (limit_at candle) (λ d. place_with_candle ids s d call candle)
  unfolding place_with_candle
  candle-Commits candle db h = elim (Bool-cases (limit_at candle == 0)) [
    | inl nothing ↦
        extend _
          (rejected-Commits ids s call call.decision.approved_quantity (limit_at candle)
            no_executable_quantity (signal_date call.policy candle))
          (λ d. rw nothing)
    | inr some_units ↦
        extend _ (policy-Commits call.policy candle (limit_at candle) db (rw some_units at h))
          (λ d. rw some_units)
  ]
