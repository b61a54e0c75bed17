-- ===== src/RunAllocation/Pending.antt =====
-- portfolio/run_allocation.py: how a selected purchase counts for the purchases after it.
use taurus_agent.Base.{
  ℕ, ◌+◌, Bool, List, [], ◌∷◌, ◌++◌, ◌==◌, leb, if◌then◌else◌, any_of, map, sort_by,
}
use taurus_agent.Base.Int.{ℤ, pos, pos_part, ◌-ℤ◌}
use taurus_agent.Money.Paise.{quantize_paise}
use taurus_agent.Allocation.Input.{ActiveAllocationPosition, SleeveAllocationSnapshot}

-- `max(0, available_cash - notional)`, in paise.
unfoldable pub cash_after : ℤ → (notional : ℕ) → ℤ
cash_after cash notional = pos (quantize_paise (pos_part (cash -ℤ pos notional)) 1)

abbrev symbol_before : ActiveAllocationPosition → ActiveAllocationPosition → Bool
symbol_before a b = leb a.symbol b.symbol

abbrev pub add_to_position :
    (symbol quantity notional : ℕ) → ActiveAllocationPosition → ActiveAllocationPosition
add_to_position symbol quantity notional p =
    if p.symbol == symbol
    then record p {
      quantity = p.quantity + quantity;
      market_value_inr = quantize_paise (p.market_value_inr + notional) 1;
    }
    else p

-- `_positions_with_pending_allocation`
unfoldable pub positions_with_pending_allocation :
    List ActiveAllocationPosition → (symbol quantity notional : ℕ) → List ActiveAllocationPosition
positions_with_pending_allocation positions symbol quantity notional =
    let updated = map (add_to_position symbol quantity notional) positions in
    sort_by symbol_before (
      if any_of (λ p. p.symbol == symbol) positions
      then updated
      else updated
        ++ (record {
          symbol = symbol;
          quantity = quantity;
          market_value_inr = quantize_paise notional 1;
        }
            ∷ []))

abbrev add_to_sleeve :
    (sleeve_id notional risk opened : ℕ) → SleeveAllocationSnapshot → SleeveAllocationSnapshot
add_to_sleeve sleeve_id notional risk opened s =
    if s.sleeve_id == sleeve_id
    then record s {
      current_exposure_inr = quantize_paise (s.current_exposure_inr + notional) 1;
      open_position_count = s.open_position_count + opened;
      open_trade_risk_inr = quantize_paise (s.open_trade_risk_inr + risk) 1;
    }
    else s

-- `_sleeves_with_pending_allocation`, with the number of positions that the purchase opens.
unfoldable pub sleeves_with_pending_allocation :
    List SleeveAllocationSnapshot
    → (sleeve_id notional risk opened : ℕ) → List SleeveAllocationSnapshot
sleeves_with_pending_allocation snapshots sleeve_id notional risk opened =
    let updated = map (add_to_sleeve sleeve_id notional risk opened) snapshots in
    if any_of (λ s. s.sleeve_id == sleeve_id) snapshots
    then updated
    else updated
      ++ (record {
        sleeve_id = sleeve_id;
        starting_nav_estimate_inr = 0;
        current_exposure_inr = quantize_paise notional 1;
        realized_pnl_inr = pos 0;
        unrealized_pnl_inr = pos 0;
        open_position_count = opened;
        open_trade_risk_inr = quantize_paise risk 1;
      }
          ∷ [])
