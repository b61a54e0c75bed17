-- ===== src/Allocation/Score.antt =====
-- portfolio/score_semantics.py and the scores of portfolio/active_allocation.py.
use taurus_agent.Base.{
  ℕ, ◌+◌, ◌-◌, ◌*◌, ◌^◌, Bool, false, not, ◌&&◌, Option, none, some, ◌==◌, ltb, leb, min,
  if◌then◌else◌, keep_if, length,
}
use taurus_agent.Base.Int.{ℤ, pos, negsuc, pos_part}
use taurus_agent.Money.Context.{round_half_even, places, round_context}
use taurus_agent.Money.Paise.{clamp}
use taurus_agent.Policy.Schema.{
  AllocationScoreWeightsPolicy, AllocationScoreBandsPolicy, TradeRiskDefaultsPolicy,
}
use taurus_agent.Policy.Sections.{hundred}
use taurus_agent.Risk.{ScoreBand, reject, half_normal, normal, strong}
use taurus_agent.Allocation.Input.{
  ActiveAllocationPosition, ActiveAllocationInput, HistoryStatistics,
}

-- `60 + raw * 100`, or `60 + raw * 300` for a negative score, in millionths.
unfoldable pub calibrated : ℤ → ℕ
calibrated (pos n) = clamp (60_000_000 + n) 0 100_000_000
calibrated (negsuc n) = clamp (60_000_000 - 3 * (n + 1)) 0 100_000_000

-- `calibrate_strategy_score`, its `allocation_score_component`.
unfoldable pub calibrate_strategy_score : Option ℤ → ℕ
unfolding calibrated round_half_even
calibrate_strategy_score none = 500_000
calibrate_strategy_score (some raw) = round_half_even (calibrated raw) 100

unfoldable pub strategy_component : ActiveAllocationInput → ℕ
unfolding calibrate_strategy_score
strategy_component i = elim i.strategy_score_component_override [
  | none ↦ calibrate_strategy_score i.strategy_score
  | some own ↦ clamp (pos_part own) 0 hundred
]

-- `_volatility_score`, with the roundings of the decimal context.
unfoldable pub volatility_score : ℕ → ℕ
unfolding places round_half_even round_context
volatility_score v =
    let e = places 5_000 (v - 1_200) 4_800 in
    let quotient = round_half_even ((v - 1_200) * 10 ^ e) 4_800 in
    let lost = round_context 28 1 (quotient * 75) in
    let left = round_context 28 1 (100 * 10 ^ e - lost) in
    if leb v 1_200
    then hundred
    else if leb 6_000 v
    then 250_000
    else round_half_even (clamp left (25 * 10 ^ e) (100 * 10 ^ e) * 10_000) (10 ^ e)

-- `_volatility_factor`
unfoldable pub volatility_factor : ℕ → ℕ
unfolding places round_half_even
volatility_factor v =
    let e = places (28 + v) 1_800 v in
    let quotient = round_half_even (1_800 * 10 ^ e) v in
    if leb v 1_800
    then 10_000
    else round_half_even (clamp (quotient * 10_000) (3_500 * 10 ^ e) (10_000 * 10 ^ e)) (10 ^ e)

abbrev same_label : Option ℕ → Option ℕ → Bool
same_label (some a) (some b) = a == b
same_label none _ = false
same_label (some a) none = false

-- Whether a position of another symbol stands in the same group.
abbrev pub shares_group : (ℕ → Option ℕ) → (symbol : ℕ) → ActiveAllocationPosition → Bool
shares_group group_by_symbol symbol p =
    not (p.symbol == symbol) && same_label (group_by_symbol p.symbol) (group_by_symbol symbol)

-- `_diversification_score`
unfoldable pub diversification_score : ActiveAllocationInput → ℕ
diversification_score i =
    let symbol = i.proposal.symbol in
    let in_sector = length (keep_if (shares_group i.sector_by_symbol symbol) i.current_positions) in
    let in_cluster =
      length (keep_if (shares_group i.graph_cluster_by_symbol symbol) i.current_positions) in
    clamp (hundred - 120_000 * in_sector - 80_000 * in_cluster) 400_000 hundred

-- `recent_sleeve_performance_score or Decimal("75")`: zero counts as missing.
abbrev performance_or_default : Option ℕ → ℕ
performance_or_default none = 750_000
performance_or_default (some score) = if score == 0 then 750_000 else score

-- `_candidate_score`
unfoldable pub candidate_score :
    HistoryStatistics → ActiveAllocationInput → AllocationScoreWeightsPolicy → ℕ
unfolding strategy_component volatility_score diversification_score round_half_even
candidate_score stats i w =
    let total =
      strategy_component i * w.strategy_score
      + i.proposal.confidence * 100 * w.trader_confidence
      + stats.liquidity_score i.history * w.liquidity
      + volatility_score (stats.realized_volatility i.history) * w.volatility
      + diversification_score i * w.diversification
      + clamp (performance_or_default i.recent_sleeve_performance_score) 0 hundred
        * w.recent_sleeve_performance in
    clamp (round_half_even total 10_000) 0 hundred

-- `_score_band`: the band, and the risk that it allows in half ten-thousandths of a percent.
unfoldable pub score_band : ℕ → AllocationScoreBandsPolicy → TradeRiskDefaultsPolicy → ScoreBand × ℕ
score_band score bands risk =
    if ltb score bands.reject_below
    then (reject, 0)
    else if ltb score bands.half_normal_below
    then (half_normal, min risk.normal_trade_risk_pct_nav (2 * risk.max_single_trade_risk_pct_nav))
    else if ltb score bands.normal_below
    then (normal, 2 * min risk.normal_trade_risk_pct_nav risk.max_single_trade_risk_pct_nav)
    else (
      strong,
      2 * min (min risk.strong_trade_risk_pct_nav risk.max_single_trade_risk_pct_nav) 7_500,
    )
