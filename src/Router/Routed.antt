-- ===== src/Router/Routed.antt =====
-- What the router lets through.
use mathlib.Core.Path.{subst}
use taurus_agent.Base.{
  ℕ, ◌<◌, ◌≡◌, ◌⊎◌, refl, Bool, true, false, not, ◌&&◌, Option, none, some, ltb, ok, >>=-eq-ok,
  ok_injective, Bool-cases, inl, inr, arith,
}
use taurus_agent.Base.Int.{ℤ}
use taurus_agent.Execution.{
  OrderSide, buy, sell, ExecutionPolicy, immediate, next_open, PaperOrder, Settings, IdScheme,
  is_paper_broker,
}
use taurus_agent.Risk.{
  FinalDecision, TraderAction, TraderProposal, EvaluationMode, market_hours, after_close,
  is_approved_for_paper,
}
use taurus_agent.Store.{Session}
use taurus_agent.Broker.Place.{place_order}
use taurus_agent.Broker.Place.Guard.{IsRoutable, IsSideOf}
use taurus_agent.Router.{
  RunTables, is_paper_routable, is_routable_action, chosen_policy, route_decision, policy_of_mode,
  policy_of_run, execution_policy_for_decision,
}

-- The side on which a routable action trades.
abbrev pub side_of : TraderAction → OrderSide
side_of TraderAction.buy = buy
side_of TraderAction.sell = sell
side_of TraderAction.hold = sell
side_of TraderAction.no_trade = sell
side_of TraderAction.reduce = sell
side_of TraderAction.exit = sell

routable_side :
    (action : TraderAction) → is_routable_action action ≡ true → IsSideOf action (side_of action)
routable_side TraderAction.buy h = tt
routable_side TraderAction.sell h = cc
routable_side TraderAction.hold h = cc
routable_side TraderAction.no_trade h = cc
routable_side TraderAction.reduce h = tt
routable_side TraderAction.exit h = tt

both : (a b : Bool) → (a && b) ≡ true → (a ≡ true) × (b ≡ true)
both a b h = ground arith

not-true : (b : Bool) → not b ≡ true → b ≡ false
not-true b h = ground arith

positive : (n : ℕ) → ltb 0 n ≡ true → 0 < n
positive n h = ground arith

-- What the router takes for routable passes the broker's guard, where the decision is of the
-- configured profile.
pub is_paper_routable-IsRoutable :
    (s : Settings) (d : FinalDecision)
    → d.portfolio_id ≡ s.profile_id
    → is_paper_routable s d ≡ true
    → IsRoutable s d (side_of d.final_action)
unfolding is_paper_routable
is_paper_routable-IsRoutable s d profile h =
    let (not_live, h) = both _ _ h in
    let (paper, h) = both _ _ h in
    let (approved, h) = both _ _ h in
    let (sendable, h) = both _ _ h in
    let (some_units, routable) = both _ _ h in
    record {
      not_live = not-true _ not_live;
      paper = paper;
      approved = approved;
      sendable = sendable;
      positive = positive _ some_units;
      profile = profile;
      trades = routable_side d.final_action routable;
    }

-- The action is a purchase, a reduction or an exit.
abbrev pub IsTrade : TraderAction → Type 0
IsTrade a = (a ≡ TraderAction.buy) ⊎ (a ≡ TraderAction.reduce) ⊎ (a ≡ TraderAction.exit)

-- The conditions on a decision that the router hands on.
pub record IsPaperRoutable (s : Settings) (d : FinalDecision) : Type 0 where
  pub live_off : s.live_trading_enabled ≡ false
  pub paper : is_paper_broker s.broker_provider ≡ true
  pub approved : is_approved_for_paper d.status ≡ true
  pub sendable : d.can_send_to_broker ≡ true
  pub positive : 0 < d.approved_quantity
  pub trades : IsTrade d.final_action

routable-IsTrade : (a : TraderAction) → is_routable_action a ≡ true → IsTrade a
routable-IsTrade TraderAction.buy h = inl refl
routable-IsTrade TraderAction.reduce h = inr (inl refl)
routable-IsTrade TraderAction.exit h = inr (inr refl)
routable-IsTrade TraderAction.sell h = cc
routable-IsTrade TraderAction.hold h = cc
routable-IsTrade TraderAction.no_trade h = cc

IsTrade-routable : (a : TraderAction) → IsTrade a → is_routable_action a ≡ true
IsTrade-routable a (inl e) = rw e refl
IsTrade-routable a (inr (inl e)) = rw e refl
IsTrade-routable a (inr (inr e)) = rw e refl

six_hold :
    (a b c d e f : Bool)
    → (not a && (b && (c && (d && (e && f))))) ≡ true
    → (a ≡ false) × (b ≡ true) × (c ≡ true) × (d ≡ true) × (e ≡ true) × (f ≡ true)
six_hold a b c d e f h =
    (ground arith, ground arith, ground arith, ground arith, ground arith, ground arith)

routable-IsPaperRoutable :
    (s : Settings) (d : FinalDecision) → is_paper_routable s d ≡ true → IsPaperRoutable s d
unfolding is_paper_routable
routable-IsPaperRoutable s d h =
    let (off, paper, approved, sendable, some_units, action) = six_hold _ _ _ _ _ _ h in
    record {
      live_off = off;
      paper = paper;
      approved = approved;
      sendable = sendable;
      positive = ground arith;
      trades = routable-IsTrade d.final_action action;
    }

pub IsPaperRoutable-routable :
    (s : Settings) (d : FinalDecision) → IsPaperRoutable s d → is_paper_routable s d ≡ true
unfolding is_paper_routable
IsPaperRoutable-routable s d r =
    let some_units : ltb 0 d.approved_quantity ≡ true = ground (arith, r.positive) in
    rw
      (
        r.live_off,
        r.paper,
        r.approved,
        r.sendable,
        some_units,
        IsTrade-routable d.final_action r.trades,
      )
      refl

-- Why an order is placed under a policy: it is the caller's; or the proposal was made in the market
-- hours or after the close; or, without a proposal, the run trades after the close or does not.
pub data HasPolicy (tables : RunTables) (d : FinalDecision)
    : Option ExecutionPolicy → ExecutionPolicy → Type 0 where
  given : (policy : ExecutionPolicy) → HasPolicy tables d (some policy) policy
  proposed_in_hours :
      (p : TraderProposal)
      → tables.proposals d.proposal_id ≡ some p
      → p.evaluation_mode ≡ market_hours
      → HasPolicy tables d none immediate
  proposed_after_close :
      (p : TraderProposal)
      → tables.proposals d.proposal_id ≡ some p
      → p.evaluation_mode ≡ after_close
      → HasPolicy tables d none next_open
  run_after_close :
      tables.proposals d.proposal_id ≡ none
      → tables.runs d.run_id ≡ some true
      → HasPolicy tables d none next_open
  run_at_once :
      tables.proposals d.proposal_id ≡ none
      → (tables.runs d.run_id ≡ none) ⊎ (tables.runs d.run_id ≡ some false)
      → HasPolicy tables d none immediate

module _ (tables : RunTables) (d : FinalDecision) where
  mode-HasPolicy :
      (p : TraderProposal) (mode : EvaluationMode)
      → tables.proposals d.proposal_id ≡ some p
      → p.evaluation_mode ≡ mode
      → HasPolicy tables d none (policy_of_mode mode)
  mode-HasPolicy p market_hours found e = proposed_in_hours p found e
  mode-HasPolicy p after_close found e = proposed_after_close p found e

  run-HasPolicy :
      (run : Option Bool)
      → tables.proposals d.proposal_id ≡ none
      → tables.runs d.run_id ≡ run
      → HasPolicy tables d none (policy_of_run run)
  run-HasPolicy none missing e = run_at_once missing (inl e)
  run-HasPolicy (some true) missing e = run_after_close missing e
  run-HasPolicy (some false) missing e = run_at_once missing (inr e)

  found-HasPolicy :
      (o : Option TraderProposal)
      → tables.proposals d.proposal_id ≡ o
      → HasPolicy tables d none (elim o [
        | some p ↦ policy_of_mode p.evaluation_mode
        | none ↦ policy_of_run (tables.runs d.run_id)
      ])
  found-HasPolicy (some p) e = mode-HasPolicy p p.evaluation_mode e refl
  found-HasPolicy none e = run-HasPolicy (tables.runs d.run_id) e refl

  chosen-HasPolicy :
      (policy : Option ExecutionPolicy) → HasPolicy tables d policy (chosen_policy tables d policy)
  unfolding chosen_policy execution_policy_for_decision
  chosen-HasPolicy (some policy) = given policy
  chosen-HasPolicy none = found-HasPolicy (tables.proposals d.proposal_id) refl

-- What a call of the router has done.
abbrev pub IsRouted :
    IdScheme
    → Settings
    → RunTables
    → Session
    → FinalDecision
    → Option ExecutionPolicy
    → Option ℕ
    → Option ℤ
    → Option PaperOrder
    → Session
    → Type 0
IsRouted ids s tables db d policy at cash none db' = (¬ (IsPaperRoutable s d)) × (db' ≡ db)
IsRouted ids s tables db d policy at cash (some o) db' =
    IsPaperRoutable s d
    × ((chosen : ExecutionPolicy) × HasPolicy tables d policy chosen
        × (place_order ids s db d chosen at cash ≡ ok (o, db')))

-- A call that returns no order has left the session as it was, and live trading is on, the broker is
-- not the paper one, or the decision is not approved for paper, may not be sent, has no quantity or
-- is no purchase, reduction or exit. One that returns an order has none of these obstacles, and has
-- placed the order under the caller's policy; or else at once for a proposal of the market hours, at
-- the next opening for one after the close, and without a proposal at the next opening where the run
-- follows the close.
pub route_decision_routes :
    (ids : IdScheme) (s : Settings) (tables : RunTables) (db : Session) (d : FinalDecision)
    (policy : Option ExecutionPolicy) (at : Option ℕ) (cash : Option ℤ) {o : Option PaperOrder}
    {db' : Session}
    → route_decision ids s tables db d policy at cash ≡ ok (o, db')
    → IsRouted ids s tables db d policy at cash o db'
unfolding route_decision
route_decision_routes ids s tables db d policy at cash {o} {db'} h =
    elim (Bool-cases (is_paper_routable s d)) [
      | inl routable ↦
          let (x, placing, e) =
            >>=-eq-ok (place_order ids s db d (chosen_policy tables d policy) at cash) _
              (rw routable at h) in
          subst (λ r. IsRouted ids s tables db d policy at cash r.0 r.1) (ok_injective e)
            (
              routable-IsPaperRoutable s d routable,
              (chosen_policy tables d policy, chosen-HasPolicy tables d policy, placing),
            )
      | inr refused ↦
          subst (λ r. IsRouted ids s tables db d policy at cash r.0 r.1)
            (ok_injective (rw refused at h))
            ((λ r. let routable = IsPaperRoutable-routable s d r in cc), refl)
    ]
