-- ===== src/Tests/RunAllocation.antt =====
-- A run's allocation at sample inputs.
use taurus_agent.Base.{◌+◌, ◌≤◌, ◌≡◌, ◌⊎◌, refl, [], ◌∷◌, none, some, Result, ok, err, sum_by, map}
use taurus_agent.Base.Int.{pos, pos_part, neg_part}
use taurus_agent.Risk.{TraderProposal}
use taurus_agent.Allocation.Prices.{pct_to_notional}
use taurus_agent.Allocation.Rooms.{cash_buffer_target_pct}
use taurus_agent.RunAllocation.Input.{
  RunAllocationInput, AllocationLedgerEntry, active_input_for, candidate_before,
}
use taurus_agent.RunAllocation.Pending.{
  cash_after, positions_with_pending_allocation, sleeves_with_pending_allocation,
}
use taurus_agent.RunAllocation.Status.{
  money_management_buy_status, lifecycle_status, require_decision, with_run_status, ledger_entry,
  summary_of,
}
use taurus_agent.RunAllocation.Run.{
  RunAllocationResult, reserve, lifecycle_step, buy_step, run_steps, scored, ranked_buys,
  lifecycle_proposals, run_state, result_of, allocate_with_money_management,
}
use taurus_agent.RunAllocation.Spending.{spend}
use taurus_agent.RunAllocation.Cash.{run_allocation_leaves_buffer}
use taurus_agent.RunAllocation.Complete.{run_allocation_complete}
use taurus_agent.Tests.Policy.{filled_policy}
use taurus_agent.Tests.Approval.{entry, leave}
use taurus_agent.Tests.Allocation.{allocation, statistics}

-- Two purchases and a sale; the strategy holds 450,000 of 1,000,000 rupees in another symbol.
abbrev pub run_input : RunAllocationInput
run_input = record {
  strategy_name = 21;
  proposals =
      record entry { proposal_id = 6; symbol = 8 } ∷ record leave { symbol = 9 } ∷ entry ∷ [];
  nav_inr = pos 10_000_000_000;
  available_cash_inr = pos 5_500_000_000;
  portfolio_starting_nav_estimate_inr = some 10_000_000_000;
  current_positions =
      record { symbol = 9; quantity = 4_500; market_value_inr = 4_500_000_000 } ∷ [];
  sleeve_snapshots = [];
  histories_by_symbol =
      λ _. record { trade_date = 5; open_price = 990_000; close_price = 1_000_000 } ∷ [];
  core_basket_symbols = [];
  strategy_rank_by_symbol = λ _. none;
  strategy_score_by_symbol = λ _. some (pos 20_000_000);
  sector_by_symbol = λ _. none;
  graph_cluster_by_symbol = λ _. none;
  money_management_policy = some filled_policy;
  fallback_policy = none;
}

unfoldable pub run_allocation : Unit {0}
unfolding allocation active_input_for candidate_before cash_after positions_with_pending_allocation
    sleeves_with_pending_allocation money_management_buy_status lifecycle_status require_decision
    with_run_status ledger_entry summary_of reserve lifecycle_step buy_step run_steps scored
    ranked_buys lifecycle_proposals run_state result_of allocate_with_money_management
run_allocation = tt

abbrev no_result : RunAllocationResult
no_result = record {
  proposals = [];
  ledger = [];
  summary = record {
    proposal_count = 0;
    selected_count = 0;
    not_selected_count = 0;
    allocation_reduced_count = 0;
    allocation_rejected_count = 0;
    unchanged_lifecycle_count = 0;
    open_position_management_count = 0;
  };
}

abbrev pub result_or_none : Result RunAllocationResult → RunAllocationResult
result_or_none (err e) = no_result
result_or_none (ok r) = r

run_result : RunAllocationResult
unfolding run_allocation
run_result = result_or_none (allocate_with_money_management statistics filled_policy run_input)

run_returned : allocate_with_money_management statistics filled_policy run_input ≡ ok run_result
unfolding run_result
run_returned = refl

-- With no snapshot of its sleeve, the strategy ends at 550,000 rupees of its 500,000.
sleeve_overrun : map (λ e. e.approved_quantity) run_result.ledger ≡ 500 ∷ 500 ∷ 0 ∷ []
unfolding run_result
sleeve_overrun = refl

buffer_of : cash_buffer_target_pct filled_policy ≡ ok 200_000
unfolding cash_buffer_target_pct
buffer_of = refl

run_allocation_leaves_buffer_example :
    (sum_by spend run_result.ledger ≡ 0)
    ⊎ ((neg_part run_input.available_cash_inr ≡ 0)
        × (pct_to_notional 200_000 run_input.nav_inr + sum_by spend run_result.ledger
            ≤ pos_part run_input.available_cash_inr + 50))
run_allocation_leaves_buffer_example =
    run_allocation_leaves_buffer statistics filled_policy run_input 200_000 buffer_of run_returned

run_allocation_complete_example :
    (sum_by (λ (e : AllocationLedgerEntry). e.proposal_id + 1) run_result.ledger
      ≡ sum_by (λ (p : TraderProposal). p.proposal_id + 1) run_input.proposals)
    × (sum_by (λ (p : TraderProposal). p.proposal_id + 1) run_result.proposals
        ≡ sum_by (λ (p : TraderProposal). p.proposal_id + 1) run_input.proposals)
run_allocation_complete_example =
    run_allocation_complete statistics filled_policy run_input (λ n. n + 1) run_returned
