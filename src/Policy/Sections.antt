-- ===== src/Policy/Sections.antt =====
-- portfolio/money_management.py: the field ranges and the validators of the policy's sections, and
-- `MoneyManagementPolicy.model_validate`, which runs them before the policy's own validators.
use taurus_agent.Base.{
  ℕ, ◌+◌, ◌≤◌, ◌<◌, ◌≡◌, Bool, true, not, ◌&&◌, List, [], ◌∷◌, Option, none, some, ◌==◌, ltb, leb,
  arith, Result, ok, raise_if, ◌>>◌, raise_if-eq-ok, field_out_of_range, stock_caps_unordered,
  score_weights_unbalanced, score_bands_unordered, score_thresholds_unordered,
}
use taurus_agent.Base.Int.{ℤ, pos, negsuc, ltb_ℤ, leb_ℤ}
use taurus_agent.Policy.Schema.{
  SleevePolicy, ExposureLimitsPolicy, TradeRiskDefaultsPolicy, AllocationScoreWeightsPolicy,
  AllocationScoreBandsPolicy, RebalanceThresholdPolicy, RebalanceCapacityPolicy,
  MoneyManagementPolicy,
}
use taurus_agent.Policy.{validate_policy}

-- 100 percent, or a score of 100.
abbrev pub hundred : ℕ
hundred = 1_000_000

abbrev pub is_percent : ℕ → Bool
is_percent n = leb n hundred

abbrev pub is_percent_or_none : Option ℕ → Bool
is_percent_or_none none = true
is_percent_or_none (some n) = is_percent n

abbrev all_of {ℓ} : {A : Type ℓ} → (A → Bool) → List A → Bool
all_of test [] = true
all_of test (x ∷ xs) = test x && all_of test xs

abbrev pub sleeve_in_range : SleevePolicy → Bool
sleeve_in_range s =
    is_percent s.target_weight_pct
    && is_percent_or_none s.drawdown_reduce_threshold_pct
    && is_percent s.drawdown_reduce_size_pct
    && is_percent_or_none s.drawdown_freeze_threshold_pct
    && is_percent_or_none s.new_entry_risk_cap_pct_nav

abbrev pub limits_in_range : ExposureLimitsPolicy → Bool
limits_in_range l =
    (ltb 0 l.max_stock_pct_nav && is_percent l.max_stock_pct_nav)
    && (ltb 0 l.max_stock_hard_cap_pct_nav && is_percent l.max_stock_hard_cap_pct_nav)
    && (ltb 0 l.max_sector_pct_nav && is_percent l.max_sector_pct_nav)
    && (ltb 0 l.max_graph_cluster_pct_nav && is_percent l.max_graph_cluster_pct_nav)
    && ltb 0 l.max_open_positions

abbrev pub trade_risk_in_range : TradeRiskDefaultsPolicy → Bool
trade_risk_in_range t =
    is_percent t.normal_trade_risk_pct_nav
    && is_percent t.strong_trade_risk_pct_nav
    && is_percent t.max_single_trade_risk_pct_nav
    && is_percent t.max_total_open_trade_risk_pct_nav

abbrev pub is_weight : ℕ → Bool
is_weight n = leb n 10_000

abbrev pub weights_in_range : AllocationScoreWeightsPolicy → Bool
weights_in_range w =
    is_weight w.strategy_score
    && is_weight w.trader_confidence
    && is_weight w.liquidity
    && is_weight w.volatility
    && is_weight w.diversification
    && is_weight w.recent_sleeve_performance

abbrev pub bands_in_range : AllocationScoreBandsPolicy → Bool
bands_in_range b =
    is_percent b.reject_below && is_percent b.half_normal_below && is_percent b.normal_below

abbrev pub capacity_in_range : RebalanceCapacityPolicy → Bool
capacity_in_range c =
    is_percent c.hard_cash_reserve_pct_nav
    && is_percent c.same_run_proceeds_haircut_pct
    && is_percent c.buy_price_buffer_pct
    && is_percent_or_none c.max_borrowed_capacity_pct_nav

-- A score between -100 and 100.
abbrev pub is_signed_score : ℤ → Bool
is_signed_score n = leb_ℤ (negsuc 999_999) n && leb_ℤ n (pos hundred)

-- The `Field` constraints of the sections.
unfoldable pub fields_in_range : MoneyManagementPolicy → Bool
fields_in_range p =
    all_of sleeve_in_range p.sleeves
    && limits_in_range p.limits
    && trade_risk_in_range p.trade_risk
    && weights_in_range p.allocation_scoring.weights
    && bands_in_range p.allocation_scoring.score_bands
    && all_of (λ g. is_percent g.drawdown_pct) p.drawdown_governors
    && is_percent p.rebalance.sleeve_drift_threshold_pct
    && is_percent p.rebalance.min_trade_drift_pct_nav
    && is_signed_score p.rebalance.score_below_exit_threshold
    && is_signed_score p.rebalance.score_below_trim_threshold
    && capacity_in_range p.rebalance_capacity

abbrev pub weight_sum : AllocationScoreWeightsPolicy → ℕ
weight_sum w =
    w.strategy_score + w.trader_confidence + w.liquidity + w.volatility + w.diversification
    + w.recent_sleeve_performance

-- `validate_stock_caps`
unfoldable pub validate_stock_caps : ExposureLimitsPolicy → Result (Unit {0})
validate_stock_caps l =
    raise_if (ltb l.max_stock_hard_cap_pct_nav l.max_stock_pct_nav) stock_caps_unordered

-- `validate_weight_sum`
unfoldable pub validate_weight_sum : AllocationScoreWeightsPolicy → Result (Unit {0})
validate_weight_sum w = raise_if (not (weight_sum w == 10_000)) score_weights_unbalanced

-- `validate_band_order`
unfoldable pub validate_band_order : AllocationScoreBandsPolicy → Result (Unit {0})
validate_band_order b =
    raise_if
      (not (ltb b.reject_below b.half_normal_below && ltb b.half_normal_below b.normal_below))
      score_bands_unordered

-- `validate_score_thresholds`
unfoldable pub validate_score_thresholds : RebalanceThresholdPolicy → Result (Unit {0})
validate_score_thresholds r =
    raise_if (ltb_ℤ r.score_below_trim_threshold r.score_below_exit_threshold)
      score_thresholds_unordered

unfoldable pub model_validate : MoneyManagementPolicy → Result MoneyManagementPolicy
unfolding fields_in_range validate_stock_caps validate_weight_sum validate_band_order
    validate_score_thresholds validate_policy
model_validate p = do
  raise_if (not (fields_in_range p)) field_out_of_range
  validate_stock_caps p.limits
  validate_weight_sum p.allocation_scoring.weights
  validate_band_order p.allocation_scoring.score_bands
  validate_score_thresholds p.rebalance
  validate_policy p

-- What the sections of a validated policy satisfy.
pub record AreSections (p : MoneyManagementPolicy) : Type 0 where
  pub fields : fields_in_range p ≡ true
  pub caps : p.limits.max_stock_pct_nav ≤ p.limits.max_stock_hard_cap_pct_nav
  pub weights : weight_sum p.allocation_scoring.weights ≡ 10_000
  pub half :
      p.allocation_scoring.score_bands.reject_below
      < p.allocation_scoring.score_bands.half_normal_below
  pub normal :
      p.allocation_scoring.score_bands.half_normal_below
      < p.allocation_scoring.score_bands.normal_below

pub model_validate-checks :
    (p : MoneyManagementPolicy) {p' : MoneyManagementPolicy}
    → model_validate p ≡ ok p'
    → AreSections p × (validate_policy p ≡ ok p')
unfolding model_validate validate_stock_caps validate_weight_sum validate_band_order
    validate_score_thresholds
model_validate-checks p h =
    let l = p.limits in
    let b = p.allocation_scoring.score_bands in
    let r = p.rebalance in
    let (fields, h) = raise_if-eq-ok (not (fields_in_range p)) field_out_of_range _ h in
    let (caps, h) =
      raise_if-eq-ok (ltb l.max_stock_hard_cap_pct_nav l.max_stock_pct_nav) stock_caps_unordered _
        h in
    let (weights, h) =
      raise_if-eq-ok (not (weight_sum p.allocation_scoring.weights == 10_000))
        score_weights_unbalanced _ h in
    let (bands, h) =
      raise_if-eq-ok
        (not (ltb b.reject_below b.half_normal_below && ltb b.half_normal_below b.normal_below))
        score_bands_unordered _ h in
    let (_, h) =
      raise_if-eq-ok (ltb_ℤ r.score_below_trim_threshold r.score_below_exit_threshold)
        score_thresholds_unordered _ h in
    (
      record {
        fields = ground arith;
        caps = ground arith;
        weights = ground arith;
        half = ground arith;
        normal = ground arith;
      },
      h,
    )
