-- ===== src/Tests/Policy.antt =====
-- The validation of the money-management policy at sample policies.
use taurus_agent.Base.Int.{pos, negsuc}
use taurus_agent.Policy.Sections.{model_validate}
use taurus_agent.Base.{
  none, some, true, ℕ, ◌≡◌, refl, List, [], ◌∷◌, ok, err, cash_buffer_borrowable, capacity_unknown,
}
use taurus_agent.Policy.Schema.{SleevePolicy, DrawdownGovernorAction, MoneyManagementPolicy}
use taurus_agent.Policy.{validate_policy, with_defaults, borrower_ids, borrowable_ids, repay_ids}
use taurus_agent.Policy.Known.{Disjoint}
use taurus_agent.Policy.Stable.{validate_policy_stable}
use taurus_agent.Policy.Valid.{IsPolicy, validate_policy-IsPolicy, validate_policy-Disjoint}

abbrev pub sleeve_of : (id weight : ℕ) → SleevePolicy
sleeve_of id weight = record {
  sleeve_id = id;
  target_weight_pct = weight;
  drawdown_reduce_threshold_pct = some 80_000;
  drawdown_reduce_size_pct = 500_000;
  drawdown_freeze_threshold_pct = some 150_000;
  new_entry_risk_cap_pct_nav = none;
}

-- A policy with the cash buffer, the active strategy and a third sleeve.
abbrev pub policy_of : (borrowable borrowers repaid : List ℕ) → MoneyManagementPolicy
policy_of borrowable borrowers repaid = record {
  sleeves = sleeve_of 0 200_000 ∷ sleeve_of 1 500_000 ∷ sleeve_of 2 300_000 ∷ [];
  strategy_mappings =
      record { strategy_name = 21; sleeve_id = 1 }
      ∷ record { strategy_name = 22; sleeve_id = 2 }
      ∷ [];
  limits = record {
    max_stock_pct_nav = 50_000;
    max_stock_hard_cap_pct_nav = 80_000;
    max_sector_pct_nav = 250_000;
    max_graph_cluster_pct_nav = 200_000;
    max_open_positions = 12;
  };
  trade_risk = record {
    normal_trade_risk_pct_nav = 5_000;
    strong_trade_risk_pct_nav = 7_500;
    max_single_trade_risk_pct_nav = 10_000;
    max_total_open_trade_risk_pct_nav = 60_000;
  };
  allocation_scoring = record {
    weights = record {
      strategy_score = 3_500;
      trader_confidence = 2_000;
      liquidity = 1_500;
      volatility = 1_500;
      diversification = 1_000;
      recent_sleeve_performance = 500;
    };
    score_bands = record {
      reject_below = 550_000;
      half_normal_below = 650_000;
      normal_below = 800_000;
    };
  };
  drawdown_governors =
      record {
        drawdown_pct = 50_000;
        action = DrawdownGovernorAction.reduce_new_position_sizes_25_pct;
      }
      ∷ record {
        drawdown_pct = 150_000;
        action = DrawdownGovernorAction.freeze_new_buys_allow_exits;
      }
      ∷ [];
  rebalance = record {
    sleeve_drift_threshold_pct = 50_000;
    min_rebalance_notional_inr = 50_000_000;
    min_trade_drift_pct_nav = 5_000;
    score_below_exit_threshold = negsuc 1_999;
    score_below_trim_threshold = pos 0;
    over_hard_cap_trim_enabled = true;
    stale_unmapped_exit_enabled = true;
  };
  rebalance_capacity = record {
    hard_cash_reserve_pct_nav = 50_000;
    same_run_proceeds_haircut_pct = 800_000;
    buy_price_buffer_pct = 50_000;
    soft_borrowing_enabled = true;
    borrowable_sleeve_ids = borrowable;
    borrower_sleeve_ids = borrowers;
    max_borrowed_capacity_pct_nav = some 200_000;
    max_borrowed_capacity_inr = none;
    repay_priority_sleeve_ids = repaid;
  };
}

abbrev pub filled_policy : MoneyManagementPolicy
filled_policy = policy_of (2 ∷ []) (1 ∷ []) (2 ∷ [])

validate_defaults : validate_policy (policy_of [] [] []) ≡ ok filled_policy
unfolding validate_policy with_defaults borrower_ids borrowable_ids repay_ids
validate_defaults = refl

pub model_validated : model_validate (policy_of [] [] []) ≡ ok filled_policy
unfolding model_validate with_defaults borrower_ids borrowable_ids repay_ids
model_validated = refl

borrowable_reserve : validate_policy (policy_of (0 ∷ []) [] []) ≡ err cash_buffer_borrowable
unfolding validate_policy with_defaults borrower_ids borrowable_ids repay_ids
borrowable_reserve = refl

unknown_borrower : validate_policy (policy_of [] (7 ∷ []) []) ≡ err capacity_unknown
unfolding validate_policy with_defaults borrower_ids borrowable_ids repay_ids
unknown_borrower = refl

-- With the active strategy listed as borrowable and no borrower named, it becomes both.
lent_to_itself :
    validate_policy (policy_of (1 ∷ []) [] []) ≡ ok (policy_of (1 ∷ []) (1 ∷ []) (1 ∷ []))
unfolding validate_policy with_defaults borrower_ids borrowable_ids repay_ids
lent_to_itself = refl

validate_policy-IsPolicy_example : IsPolicy filled_policy
validate_policy-IsPolicy_example = validate_policy-IsPolicy (policy_of [] [] []) validate_defaults

validate_policy-Disjoint_example : Disjoint (1 ∷ []) (2 ∷ [])
validate_policy-Disjoint_example =
    validate_policy-Disjoint (policy_of [] [] []) refl validate_defaults

validate_policy_stable_example : validate_policy filled_policy ≡ ok filled_policy
validate_policy_stable_example = validate_policy_stable (policy_of [] [] []) refl validate_defaults
