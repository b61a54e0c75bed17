-- ===== src/RunAllocation/Fallback.antt =====
-- portfolio/run_allocation.py: `_allocate_with_fallback`, and `RunLevelAllocationService.allocate`.
use taurus_agent.Base.{
  ℕ, ◌+◌, ◌-◌, ◌*◌, ◌/◌, not, ◌&&◌, List, [], ◌∷◌, none, some, ◌==◌, ltb, leb, if◌then◌else◌,
  keep_if, length, map, sort_by, Result, ok, err, ◌>>=◌, allocation_policy_required,
}
use taurus_agent.Base.Int.{ℤ, pos_part}
use taurus_agent.Money.Context.{round_half_even}
use taurus_agent.Money.Paise.{quantize_paise, clamp}
use taurus_agent.Policy.Schema.{settings_fallback}
use taurus_agent.Policy.Sections.{hundred}
use taurus_agent.Risk.{
  AllocationStatus, ScoreBand, BindingConstraint, AllocationDecision, TraderProposal,
  invalid_latest_price, candidate_score_below_fallback_floor, requested_notional, stock_exposure,
  available_cash, open_positions, lifecycle_action_not_new_risk,
}
use taurus_agent.Risk.Engine.{is_buy}
use taurus_agent.Allocation.Input.{ActiveAllocationPosition, HistoryStatistics}
use taurus_agent.Allocation.Prices.{pct_to_notional, requested_increase_notional, latest_close}
use taurus_agent.Allocation.Score.{calibrate_strategy_score}
use taurus_agent.Allocation.Rooms.{Room, unlimited, least_room}
use taurus_agent.Allocation.Decisions.{checked_decision}
use taurus_agent.Allocation.Service.{target_position}
use taurus_agent.RunAllocation.Input.{
  FallbackAllocationPolicy, RunAllocationInput, Candidate, proposal_before, candidate_before,
}
use taurus_agent.RunAllocation.Pending.{cash_after, positions_with_pending_allocation}
use taurus_agent.RunAllocation.Status.{
  is_selected, is_fallback_resource, fallback_buy_status, lifecycle_status,
  fallback_updated_proposal,
}
use taurus_agent.RunAllocation.Run.{
  RunState, start, record_outcome, run_steps, RunAllocationResult, result_of,
  allocate_with_money_management,
}

-- `_fallback_candidate_score`
unfoldable pub fallback_candidate_score : RunAllocationInput → TraderProposal → ℕ
fallback_candidate_score i p =
    let strategy = calibrate_strategy_score (i.strategy_score_by_symbol p.symbol) in
    clamp (round_half_even (strategy * 60 + p.confidence * 100 * 40) 100) 0 hundred

-- `_fallback_open_position_room`
unfoldable pub fallback_open_position_room :
    TraderProposal → List ActiveAllocationPosition → (max_open : ℕ) → ℕ
fallback_open_position_room p positions max_open =
    if ltb 0 p.current_position_quantity
    then unlimited
    else if leb max_open (length (keep_if (λ q. ltb 0 q.quantity) positions))
    then 0
    else unlimited

-- `_fallback_buy_status_from_quantity`
unfoldable pub fallback_buy_status_from_quantity : ℕ → BindingConstraint → AllocationStatus
fallback_buy_status_from_quantity quantity binding =
    if ltb 0 quantity
    then AllocationStatus.selected
    else if is_fallback_resource (some binding)
    then AllocationStatus.not_selected
    else AllocationStatus.allocation_rejected

module _ (i : RunAllocationInput) (policy : FallbackAllocationPolicy) where
  -- The caps after the first, which is the requested notional.
  unfoldable pub fallback_caps :
      TraderProposal → (cash : ℤ) → List ActiveAllocationPosition → List Room
  fallback_caps p cash positions =
      (
        stock_exposure,
        quantize_paise
            (pct_to_notional policy.max_position_pct_nav i.nav_inr
              - pct_to_notional p.current_position_pct_nav i.nav_inr)
            1,
      )
      ∷ (available_cash, quantize_paise (pos_part cash) 1)
      ∷ (open_positions, fallback_open_position_room p positions policy.max_open_positions)
      ∷ []

  -- The binding constraint, and the notional that it allows.
  unfoldable pub fallback_binding :
      TraderProposal → (latest : ℕ) → (cash : ℤ) → List ActiveAllocationPosition → Room
  fallback_binding p latest cash positions =
      if latest == 0
      then (invalid_latest_price, 0)
      else if ltb (fallback_candidate_score i p) 500_000
      then (candidate_score_below_fallback_floor, 0)
      else least_room (requested_notional, requested_increase_notional p i.nav_inr)
          (fallback_caps p cash positions)

  -- The decision for a quantity.
  unfoldable pub fallback_decision :
      TraderProposal → (latest quantity : ℕ) → BindingConstraint → AllocationDecision
  fallback_decision p latest quantity binding =
      let notional = quantize_paise (latest * quantity) 1 in
      record {
        symbol = p.symbol;
        action = p.action;
        strategy_name = i.strategy_name;
        sleeve_id = settings_fallback;
        status = fallback_buy_status_from_quantity quantity binding;
        candidate_score = some (fallback_candidate_score i p);
        score_band = some ScoreBand.fallback_dynamic;
        requested_position_pct_nav = p.requested_position_pct_nav;
        approved_position_pct_nav =
            target_position (pct_to_notional p.current_position_pct_nav i.nav_inr + notional)
              i.nav_inr;
        requested_notional_inr = requested_increase_notional p i.nav_inr;
        approved_notional_inr = notional;
        approved_quantity = quantity;
        allowed_risk_inr = 0;
        estimated_risk_inr = 0;
        volatility_used = none;
        governor_scale_factor = 10_000;
        portfolio_drawdown_pct = none;
        sleeve_drawdown_pct = none;
        binding_constraint = some binding;
      }

  -- `_fallback_buy_decision`
  unfoldable pub fallback_buy_decision :
      TraderProposal → (cash : ℤ) → List ActiveAllocationPosition → Result AllocationDecision
  fallback_buy_decision p cash positions =
      let latest = latest_close (i.histories_by_symbol p.symbol) in
      let room = fallback_binding p latest cash positions in
      let quantity = if latest == 0 then 0 else room.1 / latest in
      checked_decision (fallback_decision p latest quantity room.0)

  -- `_fallback_lifecycle_decision`
  unfoldable pub fallback_lifecycle_decision :
      TraderProposal → AllocationStatus → Result AllocationDecision
  fallback_lifecycle_decision p status = checked_decision (record {
    symbol = p.symbol;
    action = p.action;
    strategy_name = i.strategy_name;
    sleeve_id = settings_fallback;
    status = status;
    candidate_score = some (fallback_candidate_score i p);
    score_band = some ScoreBand.fallback_lifecycle;
    requested_position_pct_nav = p.requested_position_pct_nav;
    approved_position_pct_nav = p.target_position_pct_nav;
    requested_notional_inr = requested_increase_notional p i.nav_inr;
    approved_notional_inr = 0;
    approved_quantity = 0;
    allowed_risk_inr = 0;
    estimated_risk_inr = 0;
    volatility_used = none;
    governor_scale_factor = 10_000;
    portfolio_drawdown_pct = none;
    sleeve_drawdown_pct = none;
    binding_constraint = some lifecycle_action_not_new_risk;
  })

  unfoldable pub fallback_lifecycle_step : RunState → TraderProposal → Result RunState
  fallback_lifecycle_step s p = do
    let status = lifecycle_status p
    d ← fallback_lifecycle_decision p status
    ok (record_outcome i (fallback_updated_proposal p d status) d status s)

  -- The cash and positions after a selected purchase; the fallback has no sleeves.
  unfoldable pub fallback_reserve :
      TraderProposal → AllocationDecision → AllocationStatus → RunState → RunState
  fallback_reserve p d status s =
      if is_selected status && ltb 0 d.approved_quantity
      then record s {
        available_cash = cash_after s.available_cash d.approved_notional_inr;
        positions =
            positions_with_pending_allocation s.positions p.symbol d.approved_quantity
              d.approved_notional_inr;
      }
      else s

  unfoldable pub fallback_buy_step : RunState → TraderProposal → Result RunState
  fallback_buy_step s p = do
    d ← fallback_buy_decision p s.available_cash s.positions
    let status = fallback_buy_status d
    ok (
        fallback_reserve p d status
          (record_outcome i (fallback_updated_proposal p d status) d status s))

  unfoldable pub fallback_ranked_buys : List Candidate
  fallback_ranked_buys = sort_by (candidate_before i) (
      map (λ p. (fallback_candidate_score i p, p))
        (keep_if (λ p. is_buy p.action) (sort_by proposal_before i.proposals)))

  unfoldable pub fallback_state : Result RunState
  fallback_state = do
    s ←
        run_steps fallback_lifecycle_step (start i)
          (keep_if (λ p. not (is_buy p.action)) (sort_by proposal_before i.proposals))
    run_steps fallback_buy_step s (map (λ c. c.1) fallback_ranked_buys)

  -- `_allocate_with_fallback`
  unfoldable pub allocate_with_fallback : Result RunAllocationResult
  allocate_with_fallback = do s ← fallback_state; ok (result_of s)

-- `RunLevelAllocationService.allocate`
unfoldable pub allocate_run : HistoryStatistics → RunAllocationInput → Result RunAllocationResult
allocate_run stats i = elim i.money_management_policy [
  | some policy ↦ allocate_with_money_management stats policy i
  | none ↦ elim i.fallback_policy [
    | some policy ↦ allocate_with_fallback i policy
    | none ↦ err allocation_policy_required
  ]
]
