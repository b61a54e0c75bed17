-- ===== src/Broker/Place/Pending.antt =====
-- The `next_open` branch of `place_order` commits a pending or a rejected order.
use taurus_agent.Base.{ℕ, ◌≡◌, refl, [], arith, ◌==◌, ok, ◌>>=◌, >>=-eq-ok, Bool-cases, inl, inr}
use taurus_agent.Execution.{PaperOrder, Settings, IdScheme, insufficient_cash_or_position}
use taurus_agent.Store.{Session, Candle, order_pending_next_open}
use taurus_agent.Store.Writes.{store_pending_next_open_order}
use taurus_agent.Broker.State.{account_and_positions}
use taurus_agent.Broker.Orders.{pending_next_open_order}
use taurus_agent.Broker.State.Rows.{rows_of_account}
use taurus_agent.Broker.Place.Outcome.{
  Call, signal_date, marked, pending_next_open_quantity, place_next_open,
}
use taurus_agent.Broker.Place.Commit.{commit, IsHeld-zero, Commits, extend, rejected-Commits}

module _ (ids : IdScheme) (s : Settings) (call : Call) where
  -- The stored order of the `next_open` branch.
  pending-Commits :
      (candle : Candle) (limit affordable : ℕ)
      → Commits s call limit (λ db.
        store_pending_next_open_order db
          (pending_next_open_order ids s call.decision call.side affordable call.timestamp
            candle.trade_date)
          (account_and_positions ids (marked call.decision candle call.book) call.timestamp).0
          (account_and_positions ids (marked call.decision candle call.book) call.timestamp).1
        >>= λ stored. ok (
          pending_next_open_order ids s call.decision call.side affordable call.timestamp
              candle.trade_date,
          stored,
        ))
  unfolding store_pending_next_open_order pending_next_open_order commit
  pending-Commits candle limit affordable = record {
    out = record {
      order =
          pending_next_open_order ids s call.decision call.side affordable call.timestamp
            candle.trade_date;
      fills = [];
      account =
          (account_and_positions ids (marked call.decision candle call.book) call.timestamp).0;
      positions =
          (account_and_positions ids (marked call.decision candle call.book) call.timestamp).1;
      log = record {
        event_type = order_pending_next_open;
        order_id =
            ids.paper_order_id call.decision.final_decision_id call.decision.decision_id affordable;
        final_decision_id = call.decision.final_decision_id;
      };
    };
    sound = record {
      decision = refl;
      log_decision = refl;
      fill_decisions = tt;
      units = refl;
      balance = omega arith;
      limited = omega arith;
      covered = IsHeld-zero call.side call;
      order_run = refl;
      order_portfolio = refl;
      rows = rows_of_account ids (marked call.decision candle call.book) call.timestamp;
    };
    commits = λ db. refl;
  }

  pub next_open-Commits :
      (candle : Candle) (quantity : ℕ) (db : Session) {x : PaperOrder × Session}
      → place_next_open ids s db call candle quantity ≡ ok x
      → Commits s call quantity (λ d. place_next_open ids s d call candle quantity)
  unfolding place_next_open
  next_open-Commits candle quantity db h =
      let (affordable, found, rest) =
        >>=-eq-ok (pending_next_open_quantity ids s call candle quantity) _ h in
      elim (Bool-cases (affordable == 0)) [
        | inl nothing ↦
            extend (λ d. place_next_open ids s d call candle quantity)
              (rejected-Commits ids s call quantity quantity insufficient_cash_or_position
                (signal_date call.policy candle))
              (λ d. rw (found, nothing))
        | inr some_units ↦
            extend (λ d. place_next_open ids s d call candle quantity)
              (pending-Commits candle quantity affordable) (λ d. rw (found, some_units))
      ]
