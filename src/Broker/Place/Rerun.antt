-- ===== src/Broker/Place/Rerun.antt =====
-- `place_order` called twice for the same decision.
use mathlib.Core.Path.{subst}
use taurus_agent.Base.{ℕ, ◌≡◌, refl, sym, ◌∙◌, Option, All, All-map, ok}
use taurus_agent.Base.Int.{ℤ}
use taurus_agent.Execution.{
  OrderSide, ExecutionPolicy, PaperOrder, Settings, IsValidSettings, IdScheme,
}
use taurus_agent.Risk.{FinalDecision}
use taurus_agent.Store.{Session}
use taurus_agent.Store.Checked.{flush_met}
use taurus_agent.Store.Writes.{delete_execution_for_final_decision, replace_account_state}
use taurus_agent.Store.Queries.{latest_candle, resolve_runtime_profile}
use taurus_agent.Broker.State.Rows.{IsRowOf, rebuild_same, rebuild_account}
use taurus_agent.Broker.Place.{place_order, place_unchecked}
use taurus_agent.Broker.Place.Guard.{validate_decision-IsRoutable}
use taurus_agent.Broker.Place.Commit.{Stored, commit, IsSound}
use taurus_agent.Broker.Place.Accounted.{call_on, cleared, quote, Placed, place_order-Placed}
use taurus_agent.Broker.Place.Laws.{commit_others, commit_twice, commit_cleared}

module _ (ids : IdScheme) (s : Settings) (db : Session) (decision : FinalDecision)
    (policy : ExecutionPolicy) (at : Option ℕ) (cash : Option ℤ) where
  -- The call finds the same candle and rebuilds the same state after its own commit.
  call_again :
      (out : Stored) (side : OrderSide) (corpus : ℕ)
      → out.order.final_decision_id ≡ decision.final_decision_id
      → All (λ f. f.final_decision_id ≡ out.order.final_decision_id) out.fills
      → out.log.final_decision_id ≡ out.order.final_decision_id
      → call_on ids s (commit db out) decision policy at cash side corpus
        ≡ call_on ids s db decision policy at cash side corpus
  unfolding commit delete_execution_for_final_decision replace_account_state
  call_again out side corpus d fills log =
      let same : (cleared (commit db out) decision).fills ≡ (cleared db decision).fills =
        rw (← d) (commit_others db out fills log).1 in
      let book =
        rebuild_same (cleared db decision) (cleared (commit db out) decision) decision.run_id
          decision.portfolio_id corpus same (λ symbol. refl) in
      rw book refl

  funded_again :
      (out : Stored)
      → resolve_runtime_profile (commit db out) decision.portfolio_id
        ≡ resolve_runtime_profile db decision.portfolio_id
  unfolding resolve_runtime_profile commit delete_execution_for_final_decision replace_account_state
  funded_again out = refl

  quote_again : (out : Stored) → quote (commit db out) decision ≡ quote db decision
  unfolding latest_candle commit delete_execution_for_final_decision replace_account_state
  quote_again out = refl

  -- A commit of the call's output, made on the session that holds it already.
  committed_again :
      (out : Stored) (side : OrderSide) (corpus limit : ℕ)
      → IsSound s (call_on ids s db decision policy at cash side corpus) limit out
      → decision.portfolio_id ≡ s.profile_id
      → commit (cleared (commit db out) decision) out ≡ commit db out
  committed_again out side corpus limit sound profile =
      let fills : All (λ f. f.final_decision_id ≡ out.order.final_decision_id) out.fills =
        All-map _ _ out.fills (λ f h. h ∙ sym sound.decision) sound.fill_decisions in
      let log = sound.log_decision ∙ sym sound.decision in
      let (run, portfolio) =
        rebuild_account (cleared db decision) decision.run_id decision.portfolio_id corpus in
      let rows : All (IsRowOf out.order.run_id out.order.portfolio_id) out.positions =
        All-map _ _ out.positions
          (λ p e. (
            e.0 ∙ run ∙ sym sound.order_run,
            e.1 ∙ portfolio ∙ profile ∙ sym sound.order_portfolio,
          ))
          sound.rows in
      subst
        (λ d.
          commit (delete_execution_for_final_decision (commit db out) d) out
          ≡ commit (commit db out) out)
        sound.decision (commit_cleared (commit db out) out)
      ∙ commit_twice db out fills log rows

  -- Each step of the call on the session that holds its commit.
  Placed-again :
      {o : PaperOrder} {db' : Session} (p : Placed ids s db decision policy at cash o db')
      → place_unchecked ids s (commit db p.commits.out) decision policy at cash
        ≡ ok (p.commits.out.order, commit db p.commits.out)
  unfolding place_unchecked
  Placed-again p =
      let c = p.commits in
      let out = c.out in
      let sound = c.sound in
      let fills : All (λ f. f.final_decision_id ≡ out.order.final_decision_id) out.fills =
        All-map _ _ out.fills (λ f h. h ∙ sym sound.decision) sound.fill_decisions in
      let routable = validate_decision-IsRoutable s decision p.side p.guarded in
      rw
        (
          p.guarded,
          funded_again out,
          p.funded,
          quote_again out,
          call_again out p.side p.corpus sound.decision fills
              (sound.log_decision ∙ sym sound.decision),
          c.commits (cleared (commit db out) decision),
          committed_again out p.side p.corpus _ sound routable.profile,
        )
        refl

-- A call repeated on the session that it left returns the same order and leaves the session as it
-- is: a decision's execution is replaced, never doubled.
pub place_order_rerun :
    (ids : IdScheme) (s : Settings) (db : Session) (decision : FinalDecision)
    (policy : ExecutionPolicy) (at : Option ℕ) (cash : Option ℤ) {o : PaperOrder} {db' : Session}
    → IsValidSettings s
    → place_order ids s db decision policy at cash ≡ ok (o, db')
    → place_order ids s db' decision policy at cash ≡ ok (o, db')
unfolding place_order
place_order_rerun ids s db decision policy at cash {o} {db'} valid h =
    let p = place_order-Placed ids s db decision policy at cash valid h in
    let again : place_unchecked ids s db' decision policy at cash ≡ ok (o, db') =
      rw (p.order, p.session) (Placed-again ids s db decision policy at cash p) in
    rw (again, flush_met db' p.met) refl
