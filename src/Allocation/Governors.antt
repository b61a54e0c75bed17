-- ===== src/Allocation/Governors.antt =====
-- portfolio/active_allocation.py: drawdowns, and `_evaluate_governors`.
use taurus_agent.Base.{
  ℕ, ◌-◌, Bool, true, false, List, [], ◌∷◌, Option, none, some, ◌==◌, ltb, leb, min, if◌then◌else◌,
  first_of_list, sort_by, sum_by,
}
use taurus_agent.Base.Int.{ℤ, pos, pos_part, ◌+ℤ◌, ◌-ℤ◌}
use taurus_agent.Money.Context.{round_half_even}
use taurus_agent.Money.Paise.{quantize_ratio}
use taurus_agent.Policy.Schema.{
  SleevePolicy, DrawdownGovernorPolicy, DrawdownGovernorAction, MoneyManagementPolicy,
  reduce_new_position_sizes_25_pct, reduce_new_position_sizes_50_pct, stop_experimental_new_entries,
  freeze_new_buys_allow_exits, experimental_models,
}
use taurus_agent.Policy.Sections.{hundred}
use taurus_agent.Risk.{
  BindingConstraint, experimental_portfolio_drawdown_freeze, portfolio_drawdown_freeze,
  sleeve_drawdown_freeze,
}
use taurus_agent.Allocation.Input.{SleeveAllocationSnapshot, ActiveAllocationInput}

-- `(start - current) / start * 100`, not below zero.
unfoldable pub drawdown_of : (start : ℕ) → (current : ℤ) → ℕ
unfolding quantize_ratio ◌-ℤ◌
drawdown_of start current =
    if start == 0 then 0 else quantize_ratio (pos_part (pos start -ℤ current)) start hundred

-- `SleeveAllocationSnapshot.drawdown_pct`
unfoldable pub snapshot_drawdown : SleeveAllocationSnapshot → ℕ
unfolding drawdown_of ◌+ℤ◌
snapshot_drawdown s =
    drawdown_of s.starting_nav_estimate_inr
      (pos s.starting_nav_estimate_inr +ℤ s.realized_pnl_inr +ℤ s.unrealized_pnl_inr)

-- `_portfolio_drawdown_pct`
unfoldable pub portfolio_drawdown : ActiveAllocationInput → ℕ
unfolding drawdown_of
portfolio_drawdown i =
    drawdown_of
      (elim i.portfolio_starting_nav_estimate_inr [
        | none ↦ sum_by (λ s. s.starting_nav_estimate_inr) i.sleeve_snapshots
        | some start ↦ start
      ])
      i.nav_inr

-- `_sleeve_snapshot_for`
abbrev pub sleeve_snapshot_for : ActiveAllocationInput → ℕ → Option SleeveAllocationSnapshot
sleeve_snapshot_for i sleeve_id = first_of_list (λ s. s.sleeve_id == sleeve_id) i.sleeve_snapshots

-- What the loop over the governors keeps.
pub record Brake : Type 0 where
  pub scale_factor : ℕ
  pub frozen : Bool
  pub binding_constraint : Option BindingConstraint

abbrev pub no_brake : Brake
no_brake = record { scale_factor = 10_000; frozen = false; binding_constraint = none }

abbrev freeze : BindingConstraint → Brake → Brake
freeze reason b = record b { frozen = true; binding_constraint = some reason }

abbrev reduce_to : ℕ → Brake → Brake
reduce_to factor b = record b { scale_factor = min b.scale_factor factor }

unfoldable pub act : (sleeve_id : ℕ) → DrawdownGovernorAction → Brake → Brake
act sleeve_id reduce_new_position_sizes_25_pct b = reduce_to 7_500 b
act sleeve_id reduce_new_position_sizes_50_pct b = reduce_to 5_000 b
act sleeve_id stop_experimental_new_entries b =
    if sleeve_id == experimental_models then freeze experimental_portfolio_drawdown_freeze b else b
act sleeve_id freeze_new_buys_allow_exits b = freeze portfolio_drawdown_freeze b

abbrev pub governor_before : DrawdownGovernorPolicy → DrawdownGovernorPolicy → Bool
governor_before a b = leb a.drawdown_pct b.drawdown_pct

unfoldable pub apply_governors :
    (sleeve_id drawdown : ℕ) → List DrawdownGovernorPolicy → Brake → Brake
unfolding act
apply_governors sleeve_id drawdown [] b = b
apply_governors sleeve_id drawdown (g ∷ gs) b =
    apply_governors sleeve_id drawdown gs
      (if leb drawdown g.drawdown_pct then b else act sleeve_id g.action b)

abbrev pub exceeds : ℕ → Option ℕ → Bool
exceeds drawdown none = false
exceeds drawdown (some threshold) = ltb threshold drawdown

-- The thresholds of the sleeve itself.
unfoldable pub apply_sleeve : SleevePolicy → (drawdown : ℕ) → Brake → Brake
unfolding round_half_even
apply_sleeve s drawdown b =
    let reduced =
      if exceeds drawdown s.drawdown_reduce_threshold_pct
      then reduce_to (round_half_even (hundred - s.drawdown_reduce_size_pct) 100) b
      else b in
    if exceeds drawdown s.drawdown_freeze_threshold_pct
    then freeze sleeve_drawdown_freeze reduced
    else reduced

pub record GovernorEvaluation : Type 0 where
  pub brake : Brake
  pub portfolio_drawdown_pct : ℕ
  pub sleeve_drawdown_pct : ℕ

-- `_evaluate_governors`, without the reasons.
unfoldable pub evaluate_governors :
    ActiveAllocationInput → SleevePolicy → MoneyManagementPolicy → GovernorEvaluation
unfolding portfolio_drawdown snapshot_drawdown apply_governors apply_sleeve
evaluate_governors i sleeve policy =
    let portfolio = portfolio_drawdown i in
    let own : ℕ = elim (sleeve_snapshot_for i sleeve.sleeve_id) [
      | none ↦ 0
      | some s ↦ snapshot_drawdown s
    ] in
    record {
      brake = apply_sleeve sleeve own (
          apply_governors sleeve.sleeve_id portfolio
            (sort_by governor_before policy.drawdown_governors) no_brake);
      portfolio_drawdown_pct = portfolio;
      sleeve_drawdown_pct = own;
    }
