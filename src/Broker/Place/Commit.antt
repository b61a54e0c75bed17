-- ===== src/Broker/Place/Commit.antt =====
-- Every branch of `place_order` commits one order with its fills, whatever else the session holds.
use taurus_agent.Base.{
  ℕ, ◌+◌, ◌≤◌, ◌≡◌, refl, ◌∙◌, List, [], arith, Option, sum_by, All, Result, ok,
}
use taurus_agent.Execution.{
  OrderSide, buy, sell, PaperOrder, PaperFill, PaperAccount, PaperPosition, Settings, IdScheme,
  RejectionReason,
}
use taurus_agent.Store.{Session, AuditLog, order_rejected}
use taurus_agent.Store.Writes.{store_execution, store_rejected_order}
use taurus_agent.Broker.State.{held, account_and_positions}
use taurus_agent.Broker.Orders.{rejected_order}
use taurus_agent.Broker.State.Rows.{IsRowOf, rows_of_account}
use taurus_agent.Broker.Place.Outcome.{Call, place_rejected}

-- What a call stores.
pub record Stored : Type 0 where
  pub order : PaperOrder
  pub fills : List PaperFill
  pub account : PaperAccount
  pub positions : List PaperPosition
  pub log : AuditLog

unfoldable pub commit : Session → Stored → Session
commit db out = store_execution db out.order out.fills out.account out.positions out.log

-- A sale is within the holding.
abbrev pub IsHeld : OrderSide → Call → ℕ → Type 0
IsHeld buy call n = Unit
IsHeld sell call n = n ≤ held call.decision.symbol call.book.positions

-- What is stored belongs to the decision, and the order accounts for its units.
pub record IsSound (s : Settings) (call : Call) (limit : ℕ) (out : Stored) : Type 0 where
  pub decision : out.order.final_decision_id ≡ call.decision.final_decision_id
  pub log_decision : out.log.final_decision_id ≡ call.decision.final_decision_id
  pub fill_decisions : All (λ f. f.final_decision_id ≡ call.decision.final_decision_id) out.fills
  pub units : sum_by (λ f. f.quantity) out.fills ≡ out.order.filled_quantity
  pub balance : out.order.filled_quantity + out.order.remaining_quantity ≡ out.order.quantity
  pub limited : out.order.filled_quantity ≤ limit
  pub covered : IsHeld call.side call out.order.filled_quantity
  pub order_run : out.order.run_id ≡ call.decision.run_id
  pub order_portfolio : out.order.portfolio_id ≡ s.profile_id
  pub rows : All (IsRowOf call.book.account.run_id call.book.account.portfolio_id) out.positions

-- The call stores `out` in every session.
pub record Commits (s : Settings) (call : Call) (limit : ℕ)
    (run : Session → Result (PaperOrder × Session)) : Type 0 where
  pub out : Stored
  pub sound : IsSound s call limit out
  pub commits : (db : Session) → run db ≡ ok (out.order, commit db out)

pub IsHeld-zero : (side : OrderSide) (call : Call) → IsHeld side call 0
IsHeld-zero buy call = tt
IsHeld-zero sell call = omega arith

-- A program that runs like another one commits what that one does.
pub extend :
    {s : Settings} {call : Call} {limit : ℕ} {run : Session → Result (PaperOrder × Session)}
    (run' : Session → Result (PaperOrder × Session))
    → Commits s call limit run
    → ((db : Session) → run' db ≡ run db)
    → Commits s call limit run'
extend run' c same = record { out = c.out; sound = c.sound; commits = λ db. same db ∙ c.commits db }

module _ (ids : IdScheme) (s : Settings) (call : Call) where
  pub rejected-Commits :
      (quantity limit : ℕ) (reason : RejectionReason) (signal : Option ℕ)
      → Commits s call limit (λ db. ok (place_rejected ids s db call quantity reason signal))
  unfolding place_rejected store_rejected_order rejected_order commit
  rejected-Commits quantity limit reason signal = record {
    out = record {
      order =
          rejected_order ids s call.decision call.side quantity call.timestamp reason call.policy
            signal;
      fills = [];
      account = (account_and_positions ids call.book call.timestamp).0;
      positions = (account_and_positions ids call.book call.timestamp).1;
      log = record {
        event_type = order_rejected;
        order_id =
            ids.paper_order_id call.decision.final_decision_id call.decision.decision_id quantity;
        final_decision_id = call.decision.final_decision_id;
      };
    };
    sound = record {
      decision = refl;
      log_decision = refl;
      fill_decisions = tt;
      units = refl;
      balance = omega arith;
      limited = omega arith;
      covered = IsHeld-zero call.side call;
      order_run = refl;
      order_portfolio = refl;
      rows = rows_of_account ids call.book call.timestamp;
    };
    commits = λ db. refl;
  }
