-- ===== src/Broker/Place.antt =====
-- `PaperBroker.place_order`. An exception leaves the transaction uncommitted, so a call returns the
-- committed session or the error; logging and alerts are left out.
pub mod Decide
pub mod Outcome
pub mod Commit
pub mod Pending
pub mod Filled
pub mod Laws
pub mod Guard
pub mod Accounted
pub mod Rerun
pub mod Total
use taurus_agent.Base.{
  ℕ, ◌+◌, ◌*◌, ◌-◌, Bool, true, false, not, List, [], ◌∷◌, Option, none, some, ◌==◌, if◌then◌else◌,
  Result, ok, err, ◌>>=◌,
}
use taurus_agent.Base.Int.{ℤ}
use taurus_agent.Execution.{
  OrderSide, ExecutionPolicy, immediate, PaperOrder, PaperFill, Settings, IdScheme,
}
use taurus_agent.Risk.{FinalDecision}
use taurus_agent.Store.{Session, Candle}
use taurus_agent.Store.Constraints.{flush}
use taurus_agent.Store.Writes.{delete_execution_for_final_decision}
use taurus_agent.Store.Queries.{latest_candle, resolve_runtime_profile}
use taurus_agent.Broker.State.{rebuild_state_from_fills}
use Decide.{validate_decision, side_for_action}
use Outcome.{Call, place_without_candle, place_with_candle}

-- `submitted_at or decision.as_of`
abbrev pub submitted : Option ℕ → ℕ → ℕ
submitted none as_of = as_of
submitted (some t) as_of = t

-- The local variables once the decision's old execution is deleted and the state is rebuilt.
abbrev pub call_of :
    Session
    → FinalDecision
    → OrderSide
    → ExecutionPolicy
    → (corpus : ℕ) → (submitted_at : Option ℕ) → (pending_affordability_cash_inr : Option ℤ) → Call
call_of cleared decision side policy corpus submitted_at cash = record {
  decision = decision;
  side = side;
  policy = policy;
  timestamp = submitted submitted_at decision.as_of;
  book = rebuild_state_from_fills cleared decision.run_id decision.portfolio_id corpus;
  affordability_cash = cash;
}

-- `if candle is None`
abbrev pub place_on :
    IdScheme → Settings → Session → Call → Option Candle → Result (PaperOrder × Session)
place_on ids s db call none = ok (place_without_candle ids s db call)
place_on ids s db call (some candle) = place_with_candle ids s db call candle

-- `place_order` with the rows that it stores, before the database has checked them.
unfoldable pub place_unchecked :
    IdScheme
    → Settings
    → Session
    → FinalDecision
    → ExecutionPolicy
    → (submitted_at : Option ℕ) → (pending_affordability_cash_inr : Option ℤ)
    → Result (PaperOrder × Session)
place_unchecked ids s db decision policy submitted_at cash = do
  side ← validate_decision s decision
  corpus ← resolve_runtime_profile db decision.portfolio_id
  let cleared = delete_execution_for_final_decision db decision.final_decision_id
  place_on ids s cleared (call_of cleared decision side policy corpus submitted_at cash)
      (latest_candle cleared decision.symbol)

unfoldable pub place_order :
    IdScheme
    → Settings
    → Session
    → FinalDecision
    → ExecutionPolicy
    → (submitted_at : Option ℕ) → (pending_affordability_cash_inr : Option ℤ)
    → Result (PaperOrder × Session)
unfolding place_unchecked
place_order ids s db decision policy submitted_at cash = do
  placed ← place_unchecked ids s db decision policy submitted_at cash
  stored ← flush placed.1
  ok (placed.0, stored)
