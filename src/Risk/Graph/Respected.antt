-- ===== src/Risk/Graph/Respected.antt =====
-- The whole graph check against the limits of all policies.
use mathlib.Core.Path.{subst}
use taurus_agent.Base.{
  ℕ, ◌+◌, ◌≤◌, ◌<◌, ◌≡◌, refl, sym, true, false, List, [], ◌∷◌, All, All-map, arith, Bool-cases,
  inl, inr,
}
use taurus_agent.Base.Int.{ℤ}
use taurus_agent.Risk.Schemas.{RiskRuleStatus}
use taurus_agent.Risk.Graph.{
  GraphExposurePolicy, ExposureGroup, GraphFacts, GraphSettings, Exposures, existing_exposure,
  normalize_exposures, policies, groups_for, status_severity, apply_policy, apply_policies,
  evaluate_graph_concentration,
}
use taurus_agent.Risk.Graph.Limits.{apply_policy-IsApplied, apply_policy-le}

-- No rule rejects: each passes, warns or reduces.
abbrev pub NoneRejects : List RiskRuleStatus → Type 0
NoneRejects = All (λ status. status_severity status ≤ 2)

-- With the position, every group of every policy stays within the policy's limit.
abbrev pub FitsAll : GraphFacts → (symbol : ℕ) → Exposures → ℕ → List GraphExposurePolicy → Type 0
FitsAll g symbol exposures position = All (λ policy.
    All (λ group. existing_exposure exposures group + position ≤ policy.limit_pct_nav)
      (groups_for g policy.category symbol exposures))

module _ (g : GraphFacts) (symbol : ℕ) (exposures : Exposures) (fraction : ℕ) where
  pub record IsChecked (approved : ℕ) (ps : List GraphExposurePolicy) (final : ℕ)
      (statuses : List RiskRuleStatus) : Type 0 where
    pub shrunk : final ≤ approved
    pub positive : NoneRejects statuses → 0 < final
    pub fits : NoneRejects statuses → FitsAll g symbol exposures final ps

  groups_shrink :
      (limit next final : ℕ) (gs : List ExposureGroup)
      → final ≤ next
      → All (λ group. existing_exposure exposures group + next ≤ limit) gs
      → All (λ group. existing_exposure exposures group + final ≤ limit) gs
  groups_shrink limit next final gs h = All-map _ _ gs (λ group fit. omega arith)

  pub apply_policies-le :
      (approved : ℕ) (ps : List GraphExposurePolicy)
      → (apply_policies g symbol exposures approved fraction ps).0 ≤ approved
  unfolding apply_policies
  apply_policies-le approved [] = omega arith
  apply_policies-le approved (p ∷ ps) =
      let gs = groups_for g p.category symbol exposures in
      let next = (apply_policy p exposures approved fraction gs).0 in
      let first = apply_policy-le p exposures approved fraction gs in
      let rest = apply_policies-le next ps in omega arith

  apply_policies-IsChecked :
      (approved : ℕ) (ps : List GraphExposurePolicy)
      → 0 < approved
      → let r = apply_policies g symbol exposures approved fraction ps in
        IsChecked approved ps r.0 r.1
  unfolding apply_policies
  apply_policies-IsChecked approved [] h = record {
    shrunk = omega arith;
    positive = λ n. h;
    fits = λ n. tt;
  }
  apply_policies-IsChecked approved (p ∷ ps) h =
      let gs = groups_for g p.category symbol exposures in
      let r = apply_policy p exposures approved fraction gs in
      let applied = apply_policy-IsApplied p exposures approved fraction h gs in
      let later = apply_policies-le r.0 ps in
      record {
        shrunk = apply_policies-le approved (p ∷ ps);
        positive = λ n. (apply_policies-IsChecked r.0 ps (applied.positive_left n.0)).positive n.1;
        fits = λ n. (
          groups_shrink p.limit_pct_nav r.0 _ gs later (applied.groups_fit n.0),
          (apply_policies-IsChecked r.0 ps (applied.positive_left n.0)).fits n.1,
        );
      }

evaluate_enabled :
    (g : GraphFacts) (s : GraphSettings) (symbol approved : ℕ) (exposures : List (ℕ × ℤ))
    → s.taurus_graph_risk_enabled ≡ true
    → evaluate_graph_concentration g s symbol approved exposures
      ≡ apply_policies g symbol
          (normalize_exposures exposures)
          approved
          s.concentration_warning_fraction
          (policies s)
unfolding evaluate_graph_concentration policies
evaluate_enabled g s symbol approved exposures enabled = rw enabled refl

evaluate_disabled :
    (g : GraphFacts) (s : GraphSettings) (symbol approved : ℕ) (exposures : List (ℕ × ℤ))
    → s.taurus_graph_risk_enabled ≡ false
    → evaluate_graph_concentration g s symbol approved exposures ≡ (approved, [])
unfolding evaluate_graph_concentration
evaluate_disabled g s symbol approved exposures disabled = rw disabled refl

-- With the check enabled, a positive position never grows; and unless a rule rejects, what is left of
-- it is positive, and with it every group of every policy stays within the policy's limit, also the
-- groups that the policy's result does not name.
pub graph_limits_respected :
    (g : GraphFacts) (s : GraphSettings) (symbol approved : ℕ) (exposures : List (ℕ × ℤ))
    → s.taurus_graph_risk_enabled ≡ true
    → 0 < approved
    → let r = evaluate_graph_concentration g s symbol approved exposures in
      (r.0 ≤ approved)
      × (NoneRejects r.1
          → (0 < r.0) × FitsAll g symbol (normalize_exposures exposures) r.0 (policies s))
graph_limits_respected g s symbol approved exposures enabled h =
    let checked =
      apply_policies-IsChecked g symbol (normalize_exposures exposures)
        s.concentration_warning_fraction approved (policies s) h in
    subst
      (λ r.
        (r.0 ≤ approved)
        × (NoneRejects r.1
            → (0 < r.0) × FitsAll g symbol (normalize_exposures exposures) r.0 (policies s)))
      (sym (evaluate_enabled g s symbol approved exposures enabled))
      (checked.shrunk, λ n. (checked.positive n, checked.fits n))

-- Whether or not the check is enabled, a positive position shrinks at most to another one, unless a
-- rule rejects.
pub evaluate_graph-bounds :
    (g : GraphFacts) (s : GraphSettings) (symbol approved : ℕ) (exposures : List (ℕ × ℤ))
    → 0 < approved
    → let r = evaluate_graph_concentration g s symbol approved exposures in
      (r.0 ≤ approved) × (NoneRejects r.1 → 0 < r.0)
evaluate_graph-bounds g s symbol approved exposures h =
    elim (Bool-cases s.taurus_graph_risk_enabled) [
      | inl enabled ↦
          let (shrunk, kept) = graph_limits_respected g s symbol approved exposures enabled h in
          (shrunk, λ n. (kept n).0)
      | inr disabled ↦
          subst (λ r. (r.0 ≤ approved) × (NoneRejects r.1 → 0 < r.0))
            (sym (evaluate_disabled g s symbol approved exposures disabled)) (omega arith, λ n. h)
    ]
