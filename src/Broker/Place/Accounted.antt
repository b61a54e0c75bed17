-- ===== src/Broker/Place/Accounted.antt =====
-- `place_order` accounts for the order of its decision, and for nothing else.
use mathlib.Core.Path.{subst}
use taurus_agent.Base.{
  ℕ, true, ◌+◌, ◌≤◌, ◌≡◌, refl, sym, ap, ◌∙◌, [], ◌∷◌, Option, none, some, sum_by, All, All-map,
  keep_if, ok, >>=-eq-ok, ok_injective,
}
use taurus_agent.Base.Int.{ℤ}
use taurus_agent.Execution.{
  OrderSide, ExecutionPolicy, PaperOrder, Settings, IsValidSettings, IdScheme, no_candle_data,
}
use taurus_agent.Risk.{FinalDecision}
use taurus_agent.Store.{Session, Candle}
use taurus_agent.Store.Constraints.{meets_constraints}
use taurus_agent.Store.Checked.{checked-eq-ok}
use taurus_agent.Store.Writes.{delete_execution_for_final_decision}
use taurus_agent.Store.Queries.{latest_candle, resolve_runtime_profile}
use taurus_agent.Broker.Place.{place_order, place_unchecked, place_on, call_of}
use taurus_agent.Broker.Place.Decide.{validate_decision, execution_quantity}
use taurus_agent.Broker.Place.Guard.{IsRoutable, validate_decision-IsRoutable}
use taurus_agent.Broker.Place.Outcome.{Call, place_without_candle}
use taurus_agent.Broker.Place.Commit.{
  Stored, commit, IsSound, IsHeld, Commits, extend, rejected-Commits,
}
use taurus_agent.Broker.Place.Filled.{candle-Commits}
use taurus_agent.Broker.Place.Laws.{
  of_decision, of_others, commit_others, commit_own, commit_cleared,
}

-- The most units that the order may fill at the candle.
abbrev pub limit_on : Call → Option Candle → ℕ
limit_on call none = 0
limit_on call (some candle) = execution_quantity call.decision call.book candle.close_price

on_Commits :
    (ids : IdScheme) (s : Settings) (valid : IsValidSettings s) (call : Call) (o : Option Candle)
    (db : Session) {x : PaperOrder × Session}
    → place_on ids s db call o ≡ ok x
    → Commits s call (limit_on call o) (λ d. place_on ids s d call o)
unfolding place_without_candle
on_Commits ids s valid call none db h =
    extend _ (rejected-Commits ids s call call.decision.approved_quantity 0 no_candle_data none)
      (λ d. refl)
on_Commits ids s valid call (some candle) db h = candle-Commits ids s valid call candle db h

-- The session without the decision's old execution, and the candle and the call on it.
module _ (db : Session) (decision : FinalDecision) where
  abbrev pub cleared : Session
  cleared = delete_execution_for_final_decision db decision.final_decision_id

  abbrev pub quote : Option Candle
  quote = latest_candle cleared decision.symbol

module _ (ids : IdScheme) (s : Settings) (db : Session) (decision : FinalDecision)
    (policy : ExecutionPolicy) (at : Option ℕ) (cash : Option ℤ) where
  abbrev pub call_on : OrderSide → (corpus : ℕ) → Call
  call_on side corpus = call_of (cleared db decision) decision side policy corpus at cash

  -- What a successful call has found and committed.
  pub record Placed (o : PaperOrder) (db' : Session) : Type 0 where
    pub side : OrderSide
    pub corpus : ℕ
    pub guarded : validate_decision s decision ≡ ok side
    pub funded : resolve_runtime_profile db decision.portfolio_id ≡ ok corpus
    pub commits :
        Commits s
          (call_on side corpus)
          (limit_on (call_on side corpus) (quote db decision))
          (λ d. place_on ids s d (call_on side corpus) (quote db decision))
    pub order : o ≡ commits.out.order
    pub session : db' ≡ commit db commits.out
    pub met : meets_constraints db' ≡ true

  module _ (valid : IsValidSettings s) where
    pub place_order-Placed :
        {o : PaperOrder} {db' : Session}
        → place_order ids s db decision policy at cash ≡ ok (o, db')
        → Placed o db'
    unfolding place_order place_unchecked
    place_order-Placed {o} {db'} h =
        let (unchecked, met) = checked-eq-ok (place_unchecked ids s db decision policy at cash) h in
        let (side, guarded, rest) = >>=-eq-ok (validate_decision s decision) _ unchecked in
        let (corpus, funded, placed) =
          >>=-eq-ok (resolve_runtime_profile db decision.portfolio_id) _ rest in
        let c : Commits s (call_on side corpus) (limit_on (call_on side corpus) (quote db decision))
            (λ d. place_on ids s d (call_on side corpus) (quote db decision)) =
          on_Commits ids s valid (call_on side corpus) (quote db decision) (cleared db decision)
            placed in
        let e : (o, db') ≡ (c.out.order, commit (cleared db decision) c.out) =
          ok_injective (sym placed ∙ c.commits (cleared db decision)) in
        record {
          side = side;
          corpus = corpus;
          guarded = guarded;
          funded = funded;
          commits = c;
          order = ap (λ x. x.0) e;
          session =
              ap (λ x. x.1) e
              ∙ subst
                  (λ d. commit (delete_execution_for_final_decision db d) c.out ≡ commit db c.out)
                  c.sound.decision (commit_cleared db c.out);
          met = met;
        }

-- What theorems conclude from `Placed`, with the stored order and session written in.
module _ (ids : IdScheme) (s : Settings) (db : Session) (decision : FinalDecision)
    (policy : ExecutionPolicy) (at : Option ℕ) (cash : Option ℤ) where
  -- A decision's order and fills in a session are `o` and fills of its units, and the others' rows
  -- are those of `db`.
  pub record IsAccounted (o : PaperOrder) (db' : Session) : Type 0 where
    pub own_orders :
        keep_if (λ r. of_decision decision.final_decision_id r.final_decision_id) db'.orders
        ≡ o ∷ []
    pub own_units :
        sum_by
          (λ f. f.quantity)
          (keep_if (λ f. of_decision decision.final_decision_id f.final_decision_id) db'.fills)
        ≡ o.filled_quantity
    pub balance : o.filled_quantity + o.remaining_quantity ≡ o.quantity
    pub other_orders :
        keep_if (λ r. of_others decision.final_decision_id r.final_decision_id) db'.orders
        ≡ keep_if (λ r. of_others decision.final_decision_id r.final_decision_id) db.orders
    pub other_fills :
        keep_if (λ f. of_others decision.final_decision_id f.final_decision_id) db'.fills
        ≡ keep_if (λ f. of_others decision.final_decision_id f.final_decision_id) db.fills

  commit-IsAccounted :
      (call : Call) (limit : ℕ) (out : Stored)
      → call.decision ≡ decision
      → IsSound s call limit out
      → IsAccounted out.order (commit db out)
  commit-IsAccounted call limit out e sound =
      let d : decision.final_decision_id ≡ out.order.final_decision_id =
        sym (sound.decision ∙ ap (λ x. x.final_decision_id) e) in
      let fills : All (λ f. f.final_decision_id ≡ out.order.final_decision_id) out.fills =
        All-map _ _ out.fills (λ f h. h ∙ sym sound.decision) sound.fill_decisions in
      let log = sound.log_decision ∙ sym sound.decision in
      let own = commit_own db out fills log in
      let others = commit_others db out fills log in
      rw d (record {
        own_orders = own.0;
        own_units = ap (sum_by (λ f. f.quantity)) own.1 ∙ sound.units;
        balance = sound.balance;
        other_orders = others.0;
        other_fills = others.1;
      })

-- An order that `place_order` returns is the one order that the session then holds for its
-- decision, the fills held for the decision have the order's filled units, filled and remaining
-- units are the ordered ones, and the orders and the fills of other decisions are as before.
pub place_order_accounts :
    (ids : IdScheme) (s : Settings) (db : Session) (decision : FinalDecision)
    (policy : ExecutionPolicy) (at : Option ℕ) (cash : Option ℤ) {o : PaperOrder} {db' : Session}
    → IsValidSettings s
    → place_order ids s db decision policy at cash ≡ ok (o, db')
    → IsAccounted ids s db decision policy at cash o db'
place_order_accounts ids s db decision policy at cash {o} {db'} valid h =
    let p = place_order-Placed ids s db decision policy at cash valid h in
    rw (p.order, p.session)
      (commit-IsAccounted ids s db decision policy at cash
        (call_on ids s db decision policy at cash p.side p.corpus) _ p.commits.out refl
        p.commits.sound)

-- What limits the units of an order.
pub record IsLimited (ids : IdScheme) (s : Settings) (db : Session) (decision : FinalDecision)
    (policy : ExecutionPolicy) (at : Option ℕ) (cash : Option ℤ) (o : PaperOrder) : Type 0 where
  pub side : OrderSide
  pub corpus : ℕ
  pub routable : IsRoutable s decision side
  pub funded : resolve_runtime_profile db decision.portfolio_id ≡ ok corpus
  pub limited :
      o.filled_quantity
      ≤ limit_on (call_on ids s db decision policy at cash side corpus) (quote db decision)
  pub covered : IsHeld side (call_on ids s db decision policy at cash side corpus) o.filled_quantity

-- Where `place_order` returns an order, the decision is routable and its profile is active with a
-- corpus; the filled units are at most those that the action allows at the latest candle, of which
-- there are none without a candle; and a sale is within the holding that the stored fills of other
-- decisions leave.
pub place_order-IsLimited :
    (ids : IdScheme) (s : Settings) (db : Session) (decision : FinalDecision)
    (policy : ExecutionPolicy) (at : Option ℕ) (cash : Option ℤ) {o : PaperOrder} {db' : Session}
    → IsValidSettings s
    → place_order ids s db decision policy at cash ≡ ok (o, db')
    → IsLimited ids s db decision policy at cash o
place_order-IsLimited ids s db decision policy at cash valid h =
    let p = place_order-Placed ids s db decision policy at cash valid h in
    record {
      side = p.side;
      corpus = p.corpus;
      routable = validate_decision-IsRoutable s decision p.side p.guarded;
      funded = p.funded;
      limited = rw p.order p.commits.sound.limited;
      covered = rw p.order p.commits.sound.covered;
    }
