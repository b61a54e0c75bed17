-- ===== src/Risk/Engine/Approved.antt =====
-- What an approval of the risk engine implies.
use mathlib.Core.Path.{subst}
use taurus_agent.Base.{
  ℕ, ◌≤◌, ◌<◌, ◌≡◌, sym, Bool, true, false, ◌&&◌, [], ◌∷◌, ◌++◌, ltb, arith, Bool-cases, inl, inr,
}
use taurus_agent.Risk.Schemas.{TraderAction, passed, TraderProposal}
use taurus_agent.Risk.Graph.{evaluate_graph_concentration, normalize_exposures, policies}
use taurus_agent.Risk.Graph.Respected.{
  NoneRejects, FitsAll, graph_limits_respected, evaluate_graph-bounds,
}
use taurus_agent.Risk.Engine.{
  RiskSession, RiskEngine, position_limits_for_settings, is_buy, capped_position, graph_rules,
  scalar_rules, evaluate,
}
use taurus_agent.Risk.Engine.Rules.{
  is_approval, conclude_approves, NoneRejects-append, RulesHold, if_true, if_false, and_false,
  scalar_rules-RulesHold,
}

-- What an approval guarantees of the approved position.
pub record IsApprovedAt (db : RiskSession) (e : RiskEngine) (now : ℕ) (p : TraderProposal)
    (trace_ok : Bool) (position : ℕ) : Type 0 where
  pub rules : RulesHold db e now p trace_ok
  pub within_target : position ≤ p.target_position_pct_nav
  pub within_cap :
      is_buy p.action ≡ true → position ≤ (position_limits_for_settings e.limits).max_stock_pct_nav
  pub unchanged : is_buy p.action ≡ false → position ≡ p.target_position_pct_nav
  pub positive : is_buy p.action ≡ true → 0 < position
  pub graph_fits :
      is_buy p.action ≡ true
      → e.graph_settings.taurus_graph_risk_enabled ≡ true
      → FitsAll db.graph p.symbol
          (normalize_exposures e.current_position_exposures_pct_nav)
          position
          (policies e.graph_settings)

capped_bounds :
    (action : TraderAction) (target most : ℕ)
    → (capped_position action target most ≤ target)
      × (is_buy action ≡ true → capped_position action target most ≤ most)
      × (is_buy action ≡ false → capped_position action target most ≡ target)
capped_bounds action target most = (ground arith, λ b. ground arith, λ b. ground arith)

-- The graph rules of a purchase that raises the exposure, and of any other action.
graph_rules_buy :
    (db : RiskSession) (e : RiskEngine) (p : TraderProposal) (position : ℕ)
    → is_buy p.action ≡ true
    → p.current_position_pct_nav < position
    → graph_rules db e p position
      ≡ evaluate_graph_concentration db.graph e.graph_settings p.symbol position
          e.current_position_exposures_pct_nav
unfolding graph_rules
graph_rules_buy db e p position b h =
    let raised : ltb p.current_position_pct_nav position ≡ true = ground arith in
    let both : (is_buy p.action && ltb p.current_position_pct_nav position) ≡ true = ground arith in
    if_true _ _ _ both

pub graph_rules_other :
    (db : RiskSession) (e : RiskEngine) (p : TraderProposal) (position : ℕ)
    → is_buy p.action ≡ false
    → graph_rules db e p position ≡ (position, passed ∷ [])
unfolding graph_rules
graph_rules_other db e p position b = if_false _ _ _ (and_false _ _ b)

module _ (db : RiskSession) (e : RiskEngine) (now : ℕ) (p : TraderProposal) (trace_ok : Bool) where
  -- The position that the graph rules see.
  abbrev capped : ℕ
  capped =
      capped_position p.action p.target_position_pct_nav
        (position_limits_for_settings e.limits).max_stock_pct_nav

  buy_approved :
      is_buy p.action ≡ true
      → RulesHold db e now p trace_ok
      → NoneRejects (graph_rules db e p capped).1
      → IsApprovedAt db e now p trace_ok (graph_rules db e p capped).0
  buy_approved b rules n =
      let raises = rules.raises b in
      let same = graph_rules_buy db e p capped b raises in
      let exposures = e.current_position_exposures_pct_nav in
      let some_left : 0 < capped = omega arith in
      let n' = subst (λ r. NoneRejects r.1) same n in
      let (shrunk, kept) =
        evaluate_graph-bounds db.graph e.graph_settings p.symbol capped exposures some_left in
      let (below_target, below_cap, _) =
        capped_bounds p.action p.target_position_pct_nav
          (position_limits_for_settings e.limits).max_stock_pct_nav in
      subst (λ r. IsApprovedAt db e now p trace_ok r.0) (sym same)
        (record {
          rules = rules;
          within_target = omega arith;
          within_cap = λ b'. let h = below_cap b in omega arith;
          unchanged = λ no. cc;
          positive = λ b'. kept n';
          graph_fits = λ b' enabled.
              ((graph_limits_respected db.graph e.graph_settings p.symbol capped exposures enabled
                  some_left).1
                n').1;
        })

  other_approved :
      is_buy p.action ≡ false
      → RulesHold db e now p trace_ok
      → IsApprovedAt db e now p trace_ok (graph_rules db e p capped).0
  other_approved b rules =
      let (below_target, _, same) =
        capped_bounds p.action p.target_position_pct_nav
          (position_limits_for_settings e.limits).max_stock_pct_nav in
      subst (λ r. IsApprovedAt db e now p trace_ok r.0) (sym (graph_rules_other db e p capped b))
        (record {
          rules = rules;
          within_target = below_target;
          within_cap = λ b'. cc;
          unchanged = λ no. same b;
          positive = λ b'. cc;
          graph_fits = λ b' enabled. cc;
        })

  approved :
      is_approval (evaluate db e now p trace_ok).status ≡ true
      → IsApprovedAt db e now p trace_ok (evaluate db e now p trace_ok).approved_position_pct_nav
  unfolding evaluate
  approved h =
      let r = graph_rules db e p capped in
      let rules = scalar_rules db e now p trace_ok in
      let (n, kept) = conclude_approves r.0 (rules ++ r.1) h in
      let (scalar, graph) = NoneRejects-append rules r.1 n in
      let hold = scalar_rules-RulesHold db e now p trace_ok scalar in
      subst (IsApprovedAt db e now p trace_ok) (sym kept) (elim (Bool-cases (is_buy p.action)) [
        | inl b ↦ buy_approved b hold graph
        | inr b ↦ other_approved b hold
      ])

-- An approval, whole or with a reduction, means that paper trading is configured, the kill switch is
-- off, the instrument is active, the ids are there, the data is fresh and the action fits what is
-- held: a purchase has a target above the current position; a reduction, an exit or a hold has a
-- holding, and a positive target below the current position, none, or the current position; no
-- trade has neither a holding nor a target. For a purchase it means as well that the capped target is
-- above the current position, that the symbol is held or there is room for another one, that the
-- daily loss is below its limit and that none of the events that the engine reads, at most the latest
-- twenty, is severe; the approved position is then positive, within the target and the cap and, where
-- the graph check is enabled, within the limits of all exposure groups. For any other action the
-- approved position is the target.
pub evaluate_approved :
    (db : RiskSession) (e : RiskEngine) (now : ℕ) (p : TraderProposal) (trace_ok : Bool)
    → is_approval (evaluate db e now p trace_ok).status ≡ true
    → IsApprovedAt db e now p trace_ok (evaluate db e now p trace_ok).approved_position_pct_nav
evaluate_approved db e now p trace_ok h = approved db e now p trace_ok h
