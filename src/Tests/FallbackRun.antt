-- ===== src/Tests/FallbackRun.antt =====
-- A run's allocation under the fallback policy at sample inputs.
use taurus_agent.Base.{
  ◌+◌, ◌≤◌, ◌≡◌, ◌⊎◌, refl, [], ◌∷◌, none, some, Result, ok, err, sum_by, map, arith,
  allocation_policy_required,
}
use taurus_agent.Base.Int.{pos, pos_part, neg_part}
use taurus_agent.Risk.{AllocationDecision, BindingConstraint}
use taurus_agent.RunAllocation.Input.{FallbackAllocationPolicy, RunAllocationInput}
use taurus_agent.RunAllocation.Status.{fallback_buy_status, fallback_updated_proposal}
use taurus_agent.RunAllocation.Run.{RunAllocationResult}
use taurus_agent.RunAllocation.Fallback.{
  fallback_candidate_score, fallback_open_position_room, fallback_buy_status_from_quantity,
  fallback_caps, fallback_binding, fallback_decision, fallback_buy_decision,
  fallback_lifecycle_decision, fallback_lifecycle_step, fallback_reserve, fallback_buy_step,
  fallback_ranked_buys, fallback_state, allocate_with_fallback, allocate_run,
}
use taurus_agent.RunAllocation.Spending.{spend}
use taurus_agent.RunAllocation.Settings.{IsAffordable, fallback_purchase-IsAffordable}
use taurus_agent.RunAllocation.FallbackCash.{fallback_run_within_cash}
use taurus_agent.RunAllocation.FallbackTotal.{fallback_run-Returns}
use taurus_agent.Tests.Approval.{entry}
use taurus_agent.Tests.Allocation.{statistics}
use taurus_agent.Tests.RunAllocation.{run_allocation, run_input, result_or_none}

-- One more position, of at most 3% of 1,000,000 rupees.
abbrev settings : FallbackAllocationPolicy
settings = record { max_open_positions = 2; max_position_pct_nav = 30_000 }

abbrev fallback_input : RunAllocationInput
fallback_input = record run_input {
  money_management_policy = none;
  fallback_policy = some settings;
}

fallback_run : Unit {0}
unfolding run_allocation fallback_buy_status fallback_updated_proposal fallback_candidate_score
    fallback_open_position_room fallback_buy_status_from_quantity fallback_caps fallback_binding
    fallback_decision fallback_buy_decision fallback_lifecycle_decision fallback_lifecycle_step
    fallback_reserve fallback_buy_step fallback_ranked_buys fallback_state allocate_with_fallback
    allocate_run
fallback_run = tt

fallback_result : RunAllocationResult
unfolding fallback_run
fallback_result = result_or_none (allocate_with_fallback fallback_input settings)

fallback_returned : allocate_with_fallback fallback_input settings ≡ ok fallback_result
unfolding fallback_result
fallback_returned = refl

-- The second purchase finds the two positions open.
fallback_quantities : map (λ e. e.approved_quantity) fallback_result.ledger ≡ 300 ∷ 0 ∷ 0 ∷ []
unfolding fallback_result
fallback_quantities = refl

-- The run follows the settings, and neither policy is an error.
fallback_dispatched : allocate_run statistics fallback_input ≡ ok fallback_result
unfolding fallback_result
fallback_dispatched = refl

policy_missing :
    allocate_run statistics (record fallback_input { fallback_policy = none })
    ≡ err allocation_policy_required
unfolding fallback_run
policy_missing = refl

fallback_run_within_cash_example :
    (sum_by spend fallback_result.ledger ≡ 0)
    ⊎ ((neg_part fallback_input.available_cash_inr ≡ 0)
        × (sum_by spend fallback_result.ledger ≤ pos_part fallback_input.available_cash_inr + 50))
fallback_run_within_cash_example =
    fallback_run_within_cash fallback_input settings fallback_returned

fallback_run-Returns_example :
    (r : RunAllocationResult) × (allocate_with_fallback fallback_input settings ≡ ok r)
fallback_run-Returns_example =
    fallback_run-Returns fallback_input settings (100_000_000, refl) (omega arith)
      (
        record { requested = omega arith; current = omega arith; target = omega arith },
        (
          record { requested = omega arith; current = omega arith; target = omega arith },
          (record { requested = omega arith; current = omega arith; target = omega arith }, tt),
        ),
      )

abbrev decision_or : AllocationDecision → Result AllocationDecision → AllocationDecision
decision_or d (err e) = d
decision_or d (ok d') = d'

bought : AllocationDecision
unfolding fallback_run
bought =
    decision_or
      (fallback_decision fallback_input settings entry 1 0 BindingConstraint.available_cash)
      (fallback_buy_decision fallback_input settings entry (pos 5_500_000_000) [])

bought_returned :
    fallback_buy_decision fallback_input settings entry (pos 5_500_000_000) [] ≡ ok bought
unfolding bought
bought_returned = refl

bought_quantity : bought.approved_quantity ≡ 300
unfolding bought
bought_quantity = refl

fallback_purchase-IsAffordable_example :
    IsAffordable fallback_input settings entry (pos 5_500_000_000) [] bought
fallback_purchase-IsAffordable_example =
    fallback_purchase-IsAffordable fallback_input settings entry (pos 5_500_000_000) []
      bought_returned (omega (arith, bought_quantity))
