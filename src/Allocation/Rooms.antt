-- ===== src/Allocation/Rooms.antt =====
-- portfolio/active_allocation.py: the room that each cap leaves to a purchase.
use taurus_agent.Base.{
  ℕ, ◌-◌, ◌*◌, Bool, true, not, ◌&&◌, List, [], ◌∷◌, Option, none, some, ◌==◌, ltb, leb,
  if◌then◌else◌, keep_if, length, first_of_list, sum_by, Result, or_raise, cash_buffer_missing,
  ◌>>=◌, ok,
}
use taurus_agent.Base.Int.{pos, pos_part, ◌-ℤ◌}
use taurus_agent.Money.Paise.{quantize_paise}
use taurus_agent.Policy.Schema.{SleevePolicy, MoneyManagementPolicy, active_strategy}
use taurus_agent.Policy.Schema as Schema
use taurus_agent.Policy.{is_member}
use taurus_agent.Policy.Sections.{hundred}
use taurus_agent.Risk.{
  BindingConstraint, cash_buffer, graph_concentration, open_positions, requested_notional,
  sector_concentration, sleeve_capacity, sleeve_trade_risk_cap, stock_exposure,
  total_open_trade_risk, trade_risk,
}
use taurus_agent.Allocation.Input.{ActiveAllocationInput}
use taurus_agent.Allocation.Prices.{pct_to_notional, risk_to_notional}
use taurus_agent.Allocation.Score.{shares_group}
use taurus_agent.Allocation.Governors.{sleeve_snapshot_for}

-- `Decimal("999999999999.99")`
abbrev pub unlimited : ℕ
unlimited = 9_999_999_999_999_900

-- `_stock_exposure_room`
unfoldable pub stock_exposure_room :
    ActiveAllocationInput → MoneyManagementPolicy → (current : ℕ) → ℕ
stock_exposure_room i policy current =
    quantize_paise (pct_to_notional policy.limits.max_stock_pct_nav i.nav_inr - current) 1

-- The capacity of the sleeve, or its override.
unfoldable pub sleeve_capacity_of : ActiveAllocationInput → SleevePolicy → ℕ
sleeve_capacity_of i sleeve = elim (i.sleeve_capacity_overrides_inr sleeve.sleeve_id) [
  | none ↦ pct_to_notional sleeve.target_weight_pct i.nav_inr
  | some capacity ↦ quantize_paise capacity 1
]

-- What the active strategy holds in other symbols outside the core basket.
unfoldable pub current_active_notional : ActiveAllocationInput → SleevePolicy → ℕ
current_active_notional i sleeve =
    if sleeve.sleeve_id == active_strategy
    then sum_by (λ p. p.market_value_inr)
        (keep_if
          (λ p.
            not (is_member p.symbol i.core_basket_symbols) && not (p.symbol == i.proposal.symbol))
          i.current_positions)
    else 0

-- `_sleeve_capacity_room`
unfoldable pub sleeve_capacity_room : ActiveAllocationInput → SleevePolicy → ℕ
sleeve_capacity_room i sleeve = elim (sleeve_snapshot_for i sleeve.sleeve_id) [
  | none ↦ quantize_paise (sleeve_capacity_of i sleeve - current_active_notional i sleeve) 1
  | some s ↦ quantize_paise (sleeve_capacity_of i sleeve - s.current_exposure_inr) 1
]

-- `_sleeve_trade_risk_cap_room`
unfoldable pub sleeve_trade_risk_cap_room :
    ActiveAllocationInput → SleevePolicy → (price risk : ℕ) → ℕ
sleeve_trade_risk_cap_room i sleeve price risk = elim sleeve.new_entry_risk_cap_pct_nav [
  | none ↦ unlimited
  | some percent ↦ risk_to_notional (pct_to_notional percent i.nav_inr) price risk
]

-- `MoneyManagementPolicy.cash_buffer_target_pct`
unfoldable pub cash_buffer_target_pct : MoneyManagementPolicy → Result ℕ
cash_buffer_target_pct policy = do
  sleeve ←
      or_raise (first_of_list (λ s. s.sleeve_id == Schema.cash_buffer) policy.sleeves)
        cash_buffer_missing
  ok sleeve.target_weight_pct

-- `_cash_buffer_room`
unfoldable pub cash_buffer_room : ActiveAllocationInput → (buffer_pct : ℕ) → ℕ
cash_buffer_room i buffer_pct =
    quantize_paise (pos_part (i.available_cash_inr -ℤ pos (pct_to_notional buffer_pct i.nav_inr))) 1

-- The risk of the open positions, at the default stop of 6 percent.
unfoldable pub existing_risk : ActiveAllocationInput → ℕ
existing_risk i =
    quantize_paise
      (sum_by (λ p. p.market_value_inr * 60_000)
        (keep_if (λ p. not (p.symbol == i.proposal.symbol)) i.current_positions))
      hundred

-- `_total_trade_risk_room`
unfoldable pub total_trade_risk_room :
    ActiveAllocationInput → MoneyManagementPolicy → (price risk : ℕ) → ℕ
total_trade_risk_room i policy price risk =
    risk_to_notional
      (pct_to_notional policy.trade_risk.max_total_open_trade_risk_pct_nav i.nav_inr
        - existing_risk i)
      price risk

-- `_open_position_room`
unfoldable pub open_position_room : ActiveAllocationInput → MoneyManagementPolicy → ℕ
open_position_room i policy =
    if ltb 0 i.proposal.current_position_quantity
    then unlimited
    else if leb policy.limits.max_open_positions
        (length (keep_if (λ p. ltb 0 p.quantity) i.current_positions))
    then 0
    else unlimited

-- `_group_room`
unfoldable pub group_room :
    ActiveAllocationInput → (group_by_symbol : ℕ → Option ℕ) → (cap_pct : ℕ) → ℕ
group_room i group_by_symbol cap_pct = elim (group_by_symbol i.proposal.symbol) [
  | none ↦ unlimited
  | some _ ↦
      quantize_paise
        (pct_to_notional cap_pct i.nav_inr
          - quantize_paise
              (sum_by (λ p. p.market_value_inr)
                (keep_if (shares_group group_by_symbol i.proposal.symbol) i.current_positions))
              1)
        1
]

-- A cap by its name, and the room that it leaves.
abbrev pub Room : Type 0
Room = BindingConstraint × ℕ

-- The place of a cap's name in alphabetical order.
unfoldable pub name_rank : BindingConstraint → ℕ
name_rank cash_buffer = 1
name_rank graph_concentration = 2
name_rank open_positions = 3
name_rank requested_notional = 4
name_rank sector_concentration = 5
name_rank sleeve_capacity = 6
name_rank sleeve_trade_risk_cap = 7
name_rank stock_exposure = 8
name_rank total_open_trade_risk = 9
name_rank trade_risk = 10
name_rank _ = 0

-- `(value, name)` of the first before that of the second.
unfoldable pub room_before : Room → Room → Bool
unfolding name_rank
room_before (a, m) (b, n) = if ltb m n then true else m == n && ltb (name_rank a) (name_rank b)

-- `min(caps.items(), key=...)`
unfoldable pub least_room : Room → List Room → Room
unfolding room_before
least_room best [] = best
least_room best (r ∷ rs) = least_room (if room_before r best then r else best) rs
