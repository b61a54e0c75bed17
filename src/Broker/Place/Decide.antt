-- ===== src/Broker/Place/Decide.antt =====
-- `_validate_decision`, `_side_for_action` and `_execution_quantity`.
use taurus_agent.Base.{
  ℕ, suc, ◌*◌, ◌/◌, min, not, ◌==◌, if◌then◌else◌, Result, ok, err, raise_if, ◌>>◌, live_trading_on,
  broker_not_paper, decision_not_approved, decision_not_routable, quantity_not_positive,
  profile_mismatch, action_not_executable,
}
use taurus_agent.Base.Int.{ℤ, pos, negsuc, ◌+ℤ◌, ◌-ℤ◌, pos_part}
use taurus_agent.Money.{negate}
use taurus_agent.Execution.{OrderSide, is_paper_broker, Settings}
use taurus_agent.Risk.{
  FinalDecision, TraderAction, buy, sell, hold, no_trade, reduce, exit, is_approved_for_paper,
}
use taurus_agent.Broker.State.{Book, held, gross_exposure}

-- `_side_for_action`
unfoldable pub side_for_action : TraderAction → Result OrderSide
side_for_action buy = ok OrderSide.buy
side_for_action reduce = ok OrderSide.sell
side_for_action exit = ok OrderSide.sell
side_for_action sell = err action_not_executable
side_for_action hold = err action_not_executable
side_for_action no_trade = err action_not_executable

-- `_validate_decision`; the side that its last line computes is passed on.
unfoldable pub validate_decision : Settings → FinalDecision → Result OrderSide
validate_decision s decision = do
  raise_if s.live_trading_enabled live_trading_on
  raise_if (not (is_paper_broker s.broker_provider)) broker_not_paper
  raise_if (not (is_approved_for_paper decision.status)) decision_not_approved
  raise_if (not decision.can_send_to_broker) decision_not_routable
  raise_if (decision.approved_quantity == 0) quantity_not_positive
  raise_if (not (decision.portfolio_id == s.profile_id)) profile_mismatch
  side_for_action decision.final_action

-- `int(target_notional // reference_price)`, with the notional in hundredths of a ten-thousandth.
abbrev pub target_quantity : ℤ → (approved_pct reference_price : ℕ) → ℤ
target_quantity (pos nav) pct price = pos (nav * pct / (1_000_000 * price))
target_quantity (negsuc n) pct price = negate (suc n * pct / (1_000_000 * price))

-- `max(0, min(held, held - target_quantity))`
abbrev sale_down_to : (held : ℕ) → ℤ → ℕ
sale_down_to held target = min held (pos_part (pos held -ℤ target))

-- `_execution_quantity`; for `REDUCE` the net asset value is the cash and the gross exposure.
unfoldable pub execution_quantity : FinalDecision → Book → (reference_price : ℕ) → ℕ
execution_quantity decision book reference_price =
    let holding = held decision.symbol book.positions in
    let nav = book.account.available_cash_inr +ℤ pos (gross_exposure book.positions) in
    elim decision.final_action [
      | buy ↦ decision.approved_quantity
      | exit ↦ holding
      | reduce ↦
          if holding == 0
          then 0
          else if reference_price == 0
          then 0
          else sale_down_to holding
              (target_quantity nav decision.approved_position_pct_nav reference_price)
      | sell ↦ 0
      | hold ↦ 0
      | no_trade ↦ 0
    ]
