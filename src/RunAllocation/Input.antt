-- ===== src/RunAllocation/Input.antt =====
-- portfolio/run_allocation.py: what a run's allocation reads and returns. Symbols and proposal ids
-- are numbers in alphabetical order.
use taurus_agent.Base.{ℕ, Bool, ◌&&◌, ◌||◌, List, Option, none, some, ◌==◌, ltb, leb}
use taurus_agent.Base.Int.{ℤ}
use taurus_agent.Store.{Candle}
use taurus_agent.Policy.Schema.{MoneyManagementPolicy}
use taurus_agent.Risk.{TraderProposal, TraderAction, AllocationStatus, ScoreBand, BindingConstraint}
use taurus_agent.Allocation.Input.{
  ActiveAllocationPosition, SleeveAllocationSnapshot, ActiveAllocationInput,
}

pub record FallbackAllocationPolicy : Type 0 where
  pub max_open_positions : ℕ
  pub max_position_pct_nav : ℕ

pub record RunAllocationInput : Type 0 where
  pub strategy_name : ℕ
  pub proposals : List TraderProposal
  pub nav_inr : ℤ
  pub available_cash_inr : ℤ
  pub portfolio_starting_nav_estimate_inr : Option ℕ
  pub current_positions : List ActiveAllocationPosition
  pub sleeve_snapshots : List SleeveAllocationSnapshot
  pub histories_by_symbol : ℕ → List Candle
  pub core_basket_symbols : List ℕ
  pub strategy_rank_by_symbol : ℕ → Option ℕ
  pub strategy_score_by_symbol : ℕ → Option ℤ
  pub sector_by_symbol : ℕ → Option ℕ
  pub graph_cluster_by_symbol : ℕ → Option ℕ
  pub money_management_policy : Option MoneyManagementPolicy
  pub fallback_policy : Option FallbackAllocationPolicy

-- `AllocationLedgerEntry`, without the texts and the fields of the portfolio plan.
pub record AllocationLedgerEntry : Type 0 where
  pub symbol : ℕ
  pub proposal_id : ℕ
  pub action : TraderAction
  pub status : AllocationStatus
  pub selected : Bool
  pub strategy_rank : Option ℕ
  pub strategy_score : Option ℤ
  pub trader_confidence : ℕ
  pub candidate_score : Option ℕ
  pub score_band : Option ScoreBand
  pub requested_position_pct_nav : ℕ
  pub approved_position_pct_nav : ℕ
  pub requested_notional_inr : ℕ
  pub approved_notional_inr : ℕ
  pub approved_quantity : ℕ
  pub binding_constraint : Option BindingConstraint

-- `_active_input_for`
unfoldable pub active_input_for :
    RunAllocationInput
    → TraderProposal
    → (available_cash : ℤ) → List ActiveAllocationPosition
    → List SleeveAllocationSnapshot
    → ActiveAllocationInput
active_input_for i proposal available_cash positions sleeves = record {
  proposal = record proposal { allocation_decision = none };
  strategy_name = i.strategy_name;
  nav_inr = i.nav_inr;
  available_cash_inr = available_cash;
  portfolio_starting_nav_estimate_inr = i.portfolio_starting_nav_estimate_inr;
  current_positions = positions;
  sleeve_snapshots = sleeves;
  core_basket_symbols = i.core_basket_symbols;
  history = i.histories_by_symbol proposal.symbol;
  strategy_score = i.strategy_score_by_symbol proposal.symbol;
  strategy_score_component_override = none;
  buy_price_buffer_pct = 0;
  sleeve_capacity_overrides_inr = λ _. none;
  sector_by_symbol = i.sector_by_symbol;
  graph_cluster_by_symbol = i.graph_cluster_by_symbol;
  recent_sleeve_performance_score = none;
}

-- `_proposal_sort_key`, with equal keys in the order given.
abbrev pub proposal_before : TraderProposal → TraderProposal → Bool
proposal_before a b =
    ltb a.symbol b.symbol || (a.symbol == b.symbol && leb a.proposal_id b.proposal_id)

abbrev rank_or_last : Option ℕ → ℕ
rank_or_last none = 1_000_000
rank_or_last (some rank) = rank

-- A purchase with its candidate score.
abbrev pub Candidate : Type 0
Candidate = ℕ × TraderProposal

-- The sort key of the purchases: the higher score, the lower rank, the higher confidence, and then
-- the symbol and the id.
unfoldable pub candidate_before : RunAllocationInput → Candidate → Candidate → Bool
candidate_before i (score, p) (score', p') =
    let rank = rank_or_last (i.strategy_rank_by_symbol p.symbol) in
    let rank' = rank_or_last (i.strategy_rank_by_symbol p'.symbol) in
    ltb score' score
    || (score == score'
        && (ltb rank rank'
            || (rank == rank'
                && (ltb p'.confidence p.confidence
                    || (p.confidence == p'.confidence && proposal_before p p')))))
