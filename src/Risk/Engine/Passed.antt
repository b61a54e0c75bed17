-- ===== src/Risk/Engine/Passed.antt =====
-- Actions that buy nothing: the limits on purchases do not hold them up.
use mathlib.Core.Path.{subst}
use taurus_agent.Base.{
  ℕ, ◌≡◌, refl, sym, ap, Bool, true, false, not, ◌&&◌, ◌||◌, List, [], ◌∷◌, ◌++◌, ltb, arith,
}
use taurus_agent.Risk.Schemas.{
  RiskRuleStatus, passed, reduced, rejected, blocked, RiskReviewStatus, TraderAction,
  TraderProposal,
}
use taurus_agent.Risk.Engine.{
  RiskSession, RiskEngine, position_limits_for_settings, is_buy, action_is_valid,
  data_is_fresh_enough, is_supported, rule, paper_safe, capped_position, conclude, conclude_on,
  scalar_rules, evaluate,
}
use taurus_agent.Risk.Engine.Approved.{graph_rules_other}

-- The conditions that bind every action.
pub record IsClear (db : RiskSession) (e : RiskEngine) (now : ℕ) (p : TraderProposal)
    (trace_ok : Bool) : Type 0 where
  pub safe : paper_safe e.settings ≡ true
  pub switch_clear : e.kill_switch_enabled ≡ false
  pub supported : is_supported (db.instruments p.symbol) ≡ true
  pub traced : trace_ok ≡ true
  pub valid :
      action_is_valid p.action p.target_position_pct_nav p.current_position_pct_nav
        (ltb 0 p.current_position_quantity)
      ≡ true
  pub fresh : data_is_fresh_enough now p ≡ true

passes : (ok : Bool) (worse : RiskRuleStatus) → ok ≡ true → rule ok worse ≡ passed
passes ok worse h = rw h refl

no_buy_and : (b c : Bool) → b ≡ false → not (b && c) ≡ true
no_buy_and b c h = rw h refl

no_buy_or : (b c : Bool) → b ≡ false → (not b || c) ≡ true
no_buy_or b c h = rw h refl

next : {x y : RiskRuleStatus} {xs ys : List RiskRuleStatus} → x ≡ y → xs ≡ ys → (x ∷ xs) ≡ (y ∷ ys)
next e e' = rw (e, e') refl

capped_other :
    (action : TraderAction) (target most : ℕ)
    → is_buy action ≡ false
    → capped_position action target most ≡ target
capped_other action target most h = ground arith

-- The rules before the graph's, all passed.
abbrev passed_rules : List RiskRuleStatus
passed_rules =
    passed ∷ passed ∷ passed ∷ passed ∷ passed ∷ passed ∷ passed ∷ passed ∷ passed ∷ passed ∷ passed
    ∷ []

module _ (db : RiskSession) (e : RiskEngine) (now : ℕ) (p : TraderProposal) (trace_ok : Bool)
    (no_buy : is_buy p.action ≡ false) (clear : IsClear db e now p trace_ok) where
  scalar_rules_pass : scalar_rules db e now p trace_ok ≡ passed_rules
  unfolding scalar_rules
  scalar_rules_pass =
      let switch_off : not e.kill_switch_enabled ≡ true = rw clear.switch_clear refl in
      next (passes _ blocked clear.safe) (
        next (passes _ blocked switch_off) (
          next (passes _ rejected clear.supported) (
            next (passes _ rejected clear.traced) (
              next (passes _ rejected clear.valid) (
                next (passes _ reduced (no_buy_and (is_buy p.action) _ no_buy)) (
                  next (passes _ rejected (no_buy_and (is_buy p.action) _ no_buy)) (
                    next (passes _ rejected (no_buy_or (is_buy p.action) _ no_buy)) (
                      next (passes _ blocked (no_buy_or (is_buy p.action) _ no_buy)) (
                        next (passes _ rejected clear.fresh) (
                          next (passes _ blocked (no_buy_or (is_buy p.action) _ no_buy))
                            refl))))))))))

  all_pass :
      conclude
        (capped_position p.action p.target_position_pct_nav
          (position_limits_for_settings e.limits).max_stock_pct_nav)
        (scalar_rules db e now p trace_ok ++ passed ∷ [])
      ≡ record {
        status = RiskReviewStatus.approved;
        approved_position_pct_nav = p.target_position_pct_nav;
        hard_rule_results = passed_rules ++ passed ∷ [];
      }
  unfolding conclude conclude_on
  all_pass = rw (scalar_rules_pass, capped_other p.action p.target_position_pct_nav _ no_buy) refl

  passed_over : (evaluate db e now p trace_ok) ≡ record {
    status = RiskReviewStatus.approved;
    approved_position_pct_nav = p.target_position_pct_nav;
    hard_rule_results = passed_rules ++ passed ∷ [];
  }
  unfolding evaluate
  passed_over =
      subst
        (λ r. conclude r.0 (scalar_rules db e now p trace_ok ++ r.1) ≡ record {
          status = RiskReviewStatus.approved;
          approved_position_pct_nav = p.target_position_pct_nav;
          hard_rule_results = passed_rules ++ passed ∷ [];
        })
        (sym (graph_rules_other db e p _ no_buy)) all_pass

-- An action other than a purchase is approved at its target, where the conditions that bind every
-- action hold: the daily loss, events, caps and exposure groups never hold it up.
pub evaluate_other_approved :
    (db : RiskSession) (e : RiskEngine) (now : ℕ) (p : TraderProposal) (trace_ok : Bool)
    → is_buy p.action ≡ false
    → IsClear db e now p trace_ok
    → ((evaluate db e now p trace_ok).status ≡ RiskReviewStatus.approved)
      × ((evaluate db e now p trace_ok).approved_position_pct_nav ≡ p.target_position_pct_nav)
evaluate_other_approved db e now p trace_ok no_buy clear =
    let r = passed_over db e now p trace_ok no_buy clear in
    (ap (λ x. x.status) r, ap (λ x. x.approved_position_pct_nav) r)
