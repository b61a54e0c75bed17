-- ===== src/RunAllocation/Run.antt =====
-- portfolio/run_allocation.py: `_allocate_with_money_management`.
use taurus_agent.Base.{
  not, ◌&&◌, List, [], ◌∷◌, ◌++◌, ltb, leb, if◌then◌else◌, keep_if, map, sort_by, Result, ok, ◌>>=◌,
}
use taurus_agent.Base.Int.{ℤ}
use taurus_agent.Policy.Schema.{MoneyManagementPolicy}
use taurus_agent.Risk.{TraderProposal, AllocationDecision, AllocationStatus}
use taurus_agent.Risk.Engine.{is_buy}
use taurus_agent.Allocation.Input.{
  ActiveAllocationPosition, SleeveAllocationSnapshot, HistoryStatistics,
}
use taurus_agent.Allocation.Score.{candidate_score}
use taurus_agent.Allocation.Service.{allocate}
use taurus_agent.RunAllocation.Input.{
  RunAllocationInput, AllocationLedgerEntry, Candidate, active_input_for, proposal_before,
  candidate_before,
}
use taurus_agent.RunAllocation.Pending.{
  cash_after, positions_with_pending_allocation, sleeves_with_pending_allocation,
}
use taurus_agent.RunAllocation.Status.{
  is_selected, money_management_buy_status, lifecycle_status, require_decision, with_run_status,
  ledger_entry, RunSummary, summary_of,
}

-- The simulated account of a run, and what the run has decided so far.
pub record RunState : Type 0 where
  pub available_cash : ℤ
  pub positions : List ActiveAllocationPosition
  pub sleeves : List SleeveAllocationSnapshot
  pub proposals : List TraderProposal
  pub ledger : List AllocationLedgerEntry

abbrev pub start : RunAllocationInput → RunState
start i = record {
  available_cash = i.available_cash_inr;
  positions = i.current_positions;
  sleeves = i.sleeve_snapshots;
  proposals = [];
  ledger = [];
}

abbrev pub record_outcome :
    RunAllocationInput
    → TraderProposal
    → AllocationDecision
    → AllocationStatus
    → RunState
    → RunState
record_outcome i updated d status s = record s {
  proposals = s.proposals ++ (updated ∷ []);
  ledger = s.ledger ++ (ledger_entry i updated d status ∷ []);
}

-- The cash, positions and sleeves after a selected purchase.
unfoldable pub reserve :
    TraderProposal → AllocationDecision → AllocationStatus → RunState → RunState
reserve proposal d status s =
    if is_selected status && ltb 0 d.approved_quantity
    then record s {
      available_cash = cash_after s.available_cash d.approved_notional_inr;
      positions =
          positions_with_pending_allocation s.positions proposal.symbol d.approved_quantity
            d.approved_notional_inr;
      sleeves =
          sleeves_with_pending_allocation s.sleeves d.sleeve_id d.approved_notional_inr
            d.estimated_risk_inr (if ltb 0 proposal.current_position_quantity then 0 else 1);
    }
    else s

-- A loop over proposals that ends with the first exception.
unfoldable pub run_steps :
    (RunState → TraderProposal → Result RunState) → RunState → List TraderProposal → Result RunState
run_steps step s [] = ok s
run_steps step s (p ∷ ps) = step s p >>= λ s'. run_steps step s' ps

module _ (stats : HistoryStatistics) (policy : MoneyManagementPolicy) (i : RunAllocationInput) where
  -- A proposal that is no purchase.
  unfoldable pub lifecycle_step : RunState → TraderProposal → Result RunState
  lifecycle_step s proposal = do
    allocated ←
        allocate stats policy (active_input_for i proposal s.available_cash s.positions s.sleeves)
    d ← require_decision allocated
    let status = lifecycle_status proposal
    ok (record_outcome i (with_run_status allocated d status) d status s)

  -- A purchase.
  unfoldable pub buy_step : RunState → TraderProposal → Result RunState
  buy_step s proposal = do
    allocated ←
        allocate stats policy (active_input_for i proposal s.available_cash s.positions s.sleeves)
    d ← require_decision allocated
    let status = money_management_buy_status d
    ok (
        reserve proposal d status
          (record_outcome i (with_run_status allocated d status) d status s))

  -- The purchase with its score against the account before the run.
  unfoldable pub scored : TraderProposal → Candidate
  scored p = (
    candidate_score stats
        (active_input_for i p i.available_cash_inr i.current_positions i.sleeve_snapshots)
        policy.allocation_scoring.weights,
    p,
  )

  unfoldable pub ranked_buys : List Candidate
  ranked_buys =
      sort_by (candidate_before i)
        (map scored (keep_if (λ p. is_buy p.action) (sort_by proposal_before i.proposals)))

  -- The proposals in order that are no purchases.
  unfoldable pub lifecycle_proposals : List TraderProposal
  lifecycle_proposals = keep_if (λ p. not (is_buy p.action)) (sort_by proposal_before i.proposals)

  -- The state at the end of both loops.
  unfoldable pub run_state : Result RunState
  run_state = do
    s ← run_steps lifecycle_step (start i) lifecycle_proposals
    run_steps buy_step s (map (λ c. c.1) ranked_buys)

pub record RunAllocationResult : Type 0 where
  pub proposals : List TraderProposal
  pub ledger : List AllocationLedgerEntry
  pub summary : RunSummary

-- `_result`
unfoldable pub result_of : RunState → RunAllocationResult
result_of s = record {
  proposals = sort_by proposal_before s.proposals;
  ledger = sort_by (λ a b. leb a.symbol b.symbol) s.ledger;
  summary = summary_of (sort_by (λ a b. leb a.symbol b.symbol) s.ledger);
}

-- `_allocate_with_money_management`
unfoldable pub allocate_with_money_management :
    HistoryStatistics → MoneyManagementPolicy → RunAllocationInput → Result RunAllocationResult
allocate_with_money_management stats policy i = do s ← run_state stats policy i; ok (result_of s)
