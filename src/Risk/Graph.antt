-- ===== src/Risk/Graph.antt =====
-- risk/graph_concentration.py: how the exposure graph limits a new position. Percentages of NAV are
-- in ten-thousandths, and the graph gives, for a symbol, its values of each category and the symbols
-- with validated correlation.
pub mod Worst
pub mod Limits
pub mod Respected
use taurus_agent.Base.{
  ℕ, zero, suc, ◌+◌, ◌-◌, ◌*◌, min, Bool, true, false, ◌&&◌, ◌||◌, List, [], ◌∷◌, ◌++◌, Option,
  none, some, ◌==◌, ltb, leb, if◌then◌else◌, map, keep_if, any_of, sum_by, sort_by,
}
use taurus_agent.Base.Int.{ℤ, pos, negsuc}
use taurus_agent.Money.Context.{round_half_even}
use taurus_agent.Risk.Schemas.{RiskRuleStatus, passed, warn, reduced, rejected, blocked}

pub data Category : Type 0 where
  basic_industry product_group customer_industry dependency risk_category : Category
  correlated_cluster : Category

-- `_GraphExposurePolicy`, without the texts that the category gives.
pub record GraphExposurePolicy : Type 0 where
  pub category : Category
  pub limit_pct_nav : ℕ

-- `_ExposureValue`; labels are compared, so they are numbers.
pub record ExposureValue : Type 0 where
  pub key : ℕ
  pub label : ℕ

-- `_ExposureGroup`
pub record ExposureGroup : Type 0 where
  pub key : ℕ
  pub label : ℕ
  pub matched_symbols : List ℕ

-- `_ExposureDecision`
pub record ExposureDecision : Type 0 where
  pub group : ExposureGroup
  pub status : RiskRuleStatus
  pub existing_exposure_pct_nav : ℕ
  pub projected_exposure_pct_nav : ℕ
  pub warning_threshold_pct_nav : ℕ
  pub approved_position_pct_nav : ℕ

-- The settings that the check reads; the fraction is in ten-thousandths.
pub record GraphSettings : Type 0 where
  pub taurus_graph_risk_enabled : Bool
  pub max_basic_industry_exposure_pct : ℕ
  pub max_product_group_exposure_pct : ℕ
  pub max_customer_industry_exposure_pct : ℕ
  pub max_dependency_exposure_pct : ℕ
  pub max_risk_category_exposure_pct : ℕ
  pub max_correlated_cluster_exposure_pct : ℕ
  pub concentration_warning_fraction : ℕ

-- What the graph tables give: `_values_for_symbol`, and the sorted symbols of the edges with a
-- correlated statistic, with the label of their cluster.
pub record GraphFacts : Type 0 where
  pub values_for_symbol : Category → ℕ → List ExposureValue
  pub related_symbols : ℕ → List ℕ
  pub cluster_label : ℕ → ℕ

-- Exposures by symbol.
abbrev pub Exposures : Type 0
Exposures = List (ℕ × ℕ)

abbrev is_in : ℕ → List ℕ → Bool
is_in x = any_of (λ y. y == x)

abbrev pub exposed_symbols : Exposures → List ℕ
exposed_symbols = map (λ e. e.0)

-- `exposures[symbol]` for a symbol among the keys.
abbrev pub exposure_of : Exposures → ℕ → ℕ
exposure_of [] symbol = 0
exposure_of ((k, x) ∷ rest) symbol = if k == symbol then x else exposure_of rest symbol

-- `_normalize_exposures`: only positive exposures stay.
unfoldable pub normalize_exposures : List (ℕ × ℤ) → Exposures
normalize_exposures [] = []
normalize_exposures ((k, pos zero) ∷ rest) = normalize_exposures rest
normalize_exposures ((k, pos (suc n)) ∷ rest) = (k, suc n) ∷ normalize_exposures rest
normalize_exposures ((k, negsuc n) ∷ rest) = normalize_exposures rest

-- `_policies`
unfoldable pub policies : GraphSettings → List GraphExposurePolicy
policies s =
    record { category = basic_industry; limit_pct_nav = s.max_basic_industry_exposure_pct }
    ∷ record { category = product_group; limit_pct_nav = s.max_product_group_exposure_pct }
    ∷ record { category = customer_industry; limit_pct_nav = s.max_customer_industry_exposure_pct }
    ∷ record { category = dependency; limit_pct_nav = s.max_dependency_exposure_pct }
    ∷ record { category = risk_category; limit_pct_nav = s.max_risk_category_exposure_pct }
    ∷ record {
      category = correlated_cluster;
      limit_pct_nav = s.max_correlated_cluster_exposure_pct;
    }
    ∷ []

-- One group of `_static_exposure_groups`.
unfoldable pub static_group : GraphFacts → Category → Exposures → ExposureValue → ExposureGroup
static_group g category exposures value = record {
  key = value.key;
  label = value.label;
  matched_symbols = sort_by leb (
      keep_if (λ symbol. any_of (λ v. v.key == value.key) (g.values_for_symbol category symbol))
        (exposed_symbols exposures));
}

-- `_static_exposure_groups`
unfoldable pub static_exposure_groups :
    GraphFacts → Category → (symbol : ℕ) → Exposures → List ExposureGroup
static_exposure_groups g category symbol exposures =
    map (static_group g category exposures) (g.values_for_symbol category symbol)

-- The groups of `_correlated_cluster_groups` for the symbols that it finds.
abbrev pub cluster_of : GraphFacts → (symbol : ℕ) → Exposures → List ℕ → List ExposureGroup
cluster_of g symbol exposures [] = []
cluster_of g symbol exposures (r ∷ related) =
    record {
      key = symbol;
      label = g.cluster_label symbol;
      matched_symbols = keep_if (λ s. is_in s (exposed_symbols exposures)) (r ∷ related);
    }
    ∷ []

-- The groups that a policy looks at.
unfoldable pub groups_for : GraphFacts → Category → (symbol : ℕ) → Exposures → List ExposureGroup
groups_for g basic_industry symbol exposures =
    static_exposure_groups g basic_industry symbol exposures
groups_for g product_group symbol exposures =
    static_exposure_groups g product_group symbol exposures
groups_for g customer_industry symbol exposures =
    static_exposure_groups g customer_industry symbol exposures
groups_for g dependency symbol exposures = static_exposure_groups g dependency symbol exposures
groups_for g risk_category symbol exposures =
    static_exposure_groups g risk_category symbol exposures
groups_for g correlated_cluster symbol exposures =
    cluster_of g symbol exposures (g.related_symbols symbol)

-- The exposure of the group's symbols.
unfoldable pub existing_exposure : Exposures → ExposureGroup → ℕ
existing_exposure exposures group = sum_by (exposure_of exposures) group.matched_symbols

-- The branches of `_decision_for_group`, on the exposures and the limit.
unfoldable pub status_and_approved :
    (existing proposed limit warning_threshold : ℕ) → RiskRuleStatus × ℕ
status_and_approved existing proposed limit warning_threshold =
    if proposed == 0
    then (passed, proposed)
    else if leb limit existing
    then (rejected, 0)
    else if ltb limit (existing + proposed)
    then if limit - existing == 0 then (rejected, 0) else (reduced, min proposed (limit - existing))
    else if leb warning_threshold (existing + proposed)
    then (warn, proposed)
    else (passed, proposed)

-- `_decision_for_group`
unfoldable pub decision_for_group :
    GraphExposurePolicy
    → Exposures
    → (proposed warning_fraction : ℕ) → ExposureGroup
    → ExposureDecision
decision_for_group policy exposures proposed warning_fraction group =
    let existing = existing_exposure exposures group in
    let warning_threshold = round_half_even (policy.limit_pct_nav * warning_fraction) 10_000 in
    let (status, approved) =
      status_and_approved existing proposed policy.limit_pct_nav warning_threshold in
    record {
      group = group;
      status = status;
      existing_exposure_pct_nav = existing;
      projected_exposure_pct_nav = existing + proposed;
      warning_threshold_pct_nav = warning_threshold;
      approved_position_pct_nav = approved;
    }

-- `_status_severity`
abbrev pub status_severity : RiskRuleStatus → ℕ
status_severity passed = 0
status_severity warn = 1
status_severity reduced = 2
status_severity rejected = 3
status_severity blocked = 4

-- The order of `sorted(..., reverse=True)`, which keeps the order of equal keys.
unfoldable pub decision_before : ExposureDecision → ExposureDecision → Bool
decision_before a b =
    ltb (status_severity b.status) (status_severity a.status)
    || (status_severity a.status == status_severity b.status
        && (ltb b.projected_exposure_pct_nav a.projected_exposure_pct_nav
            || (a.projected_exposure_pct_nav == b.projected_exposure_pct_nav
                && (ltb b.existing_exposure_pct_nav a.existing_exposure_pct_nav
                    || (a.existing_exposure_pct_nav == b.existing_exposure_pct_nav
                        && leb b.group.label a.group.label)))))

-- The first entry of a sort, for a list that is not empty.
abbrev pub worst_of : ExposureDecision → List ExposureDecision → ExposureDecision
worst_of default [] = default
worst_of default (d ∷ ds) = d

-- `_decide_exposure`, for groups that are not empty.
unfoldable pub decide_exposure :
    GraphExposurePolicy
    → Exposures
    → (proposed warning_fraction : ℕ) → ExposureGroup
    → List ExposureGroup
    → ExposureDecision
decide_exposure policy exposures proposed warning_fraction group groups =
    let decisions =
      map (decision_for_group policy exposures proposed warning_fraction) (group ∷ groups) in
    worst_of (decision_for_group policy exposures proposed warning_fraction group)
      (sort_by decision_before decisions)

-- One round of the loop of `evaluate_graph_concentration`: the approved position and the rule's
-- status, on the groups of the policy.
unfoldable pub apply_policy :
    GraphExposurePolicy
    → Exposures
    → (approved warning_fraction : ℕ) → List ExposureGroup
    → ℕ × RiskRuleStatus
apply_policy policy exposures approved warning_fraction [] = (approved, passed)
apply_policy policy exposures approved warning_fraction (group ∷ groups) =
    let d = decide_exposure policy exposures approved warning_fraction group groups in
    (d.approved_position_pct_nav, d.status)

-- The loop over `_policies(settings)`.
unfoldable pub apply_policies :
    GraphFacts
    → (symbol : ℕ) → Exposures
    → (approved warning_fraction : ℕ) → List GraphExposurePolicy
    → ℕ × List RiskRuleStatus
apply_policies g symbol exposures approved warning_fraction [] = (approved, [])
apply_policies g symbol exposures approved warning_fraction (policy ∷ rest) =
    let (next, status) =
      apply_policy policy exposures approved warning_fraction
        (groups_for g policy.category symbol exposures) in
    let (final, statuses) = apply_policies g symbol exposures next warning_fraction rest in
    (final, status ∷ statuses)

-- `evaluate_graph_concentration`: the approved position and the statuses of the rules.
unfoldable pub evaluate_graph_concentration :
    GraphFacts
    → GraphSettings
    → (symbol approved_position_pct_nav : ℕ) → List (ℕ × ℤ)
    → ℕ × List RiskRuleStatus
evaluate_graph_concentration g s symbol approved exposures =
    if s.taurus_graph_risk_enabled
    then apply_policies g symbol (normalize_exposures exposures) approved
        s.concentration_warning_fraction (policies s)
    else (approved, [])
