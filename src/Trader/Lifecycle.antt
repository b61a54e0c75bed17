-- ===== src/Trader/Lifecycle.antt =====
-- agents/trader_agent.py: the trader's own decision, `_deterministic_decision`, and the actions
-- that it leaves to the language model.
use taurus_agent.Base.{
  ℕ, ◌+◌, ◌-◌, ◌*◌, Bool, false, ◌&&◌, List, [], ◌∷◌, ◌==◌, ltb, leb, if◌then◌else◌, max, min,
  length, sum_by,
}
use taurus_agent.Base.Int.{ℤ, pos, negsuc, pos_part, neg_part}
use taurus_agent.Money.Context.{round_half_even}
use taurus_agent.Money.Paise.{quantize_ratio, clamp}
use taurus_agent.Risk.{TraderAction, buy, hold, no_trade, reduce, exit}
use taurus_agent.Trader.Context.{
  ConsensusLabel, bullish, mild_bullish, neutral, mild_bearish, bearish, LifecycleTrigger,
  new_entry, hold_review, stop_loss, take_profit, thesis_weakened, thesis_invalidated, DebateReport,
  PortfolioContext, ProposalDecision, reaches_percent,
}

abbrev label_code : ConsensusLabel → ℕ
label_code bullish = 0
label_code mild_bullish = 1
label_code neutral = 2
label_code mild_bearish = 3
label_code bearish = 4

abbrev pub is_bullish : ConsensusLabel → Bool
is_bullish label = ltb (label_code label) 2

-- `consensus_score >= 0.15`
abbrev pub is_strong : ℤ → Bool
is_strong (pos n) = leb 1_500 n
is_strong (negsuc n) = false

-- The trigger that the label of the debate gives.
abbrev pub label_trigger : ConsensusLabel → LifecycleTrigger
label_trigger bearish = thesis_invalidated
label_trigger mild_bearish = thesis_weakened
label_trigger _ = hold_review

-- `_lifecycle_trigger`
unfoldable pub lifecycle_trigger : DebateReport → PortfolioContext → LifecycleTrigger
lifecycle_trigger debate c =
    let priced = ltb 0 c.average_cost_inr && ltb 0 c.latest_close_inr in
    if c.current_quantity == 0
    then new_entry
    else if priced && reaches_percent (c.average_cost_inr - c.latest_close_inr) c.average_cost_inr 6
    then stop_loss
    else if priced
        && reaches_percent (c.latest_close_inr - c.average_cost_inr) c.average_cost_inr 12
    then take_profit
    else label_trigger debate.consensus_label

abbrev absolute : ℤ → ℕ
absolute z = pos_part z + neg_part z

-- `_raw_new_entry_target`: ten times the score, and one percent at least.
unfoldable pub raw_new_entry_target : DebateReport → ℕ
raw_new_entry_target debate = max 10_000 (absolute debate.consensus_score * 10)

-- `_reduced_target`
unfoldable pub reduced_target : ℕ → ℕ
unfolding round_half_even
reduced_target current = if current == 0 then 0 else round_half_even current 2

-- `_confidence`
unfoldable pub confidence_of : (reports : List ℕ) → DebateReport → ℕ
confidence_of reports debate =
    clamp (min (quantize_ratio (sum_by (λ n. n) reports) (length reports) 1) debate.confidence) 0
      10_000

-- `_new_entry_action`
unfoldable pub new_entry_action : DebateReport → TraderAction
new_entry_action debate =
    if is_bullish debate.consensus_label && is_strong debate.consensus_score then buy else no_trade

-- `_allowed_actions` of a position that is not at its limits.
abbrev pub label_actions : ConsensusLabel → List TraderAction
label_actions label = if is_bullish label then hold ∷ buy ∷ [] else hold ∷ reduce ∷ exit ∷ []

-- `_allowed_actions`
unfoldable pub allowed_actions :
    LifecycleTrigger → DebateReport → PortfolioContext → List TraderAction
allowed_actions stop_loss debate c = exit ∷ []
allowed_actions take_profit debate c = reduce ∷ exit ∷ []
allowed_actions thesis_weakened debate c =
    if c.current_quantity == 0 then buy ∷ no_trade ∷ [] else reduce ∷ exit ∷ []
allowed_actions thesis_invalidated debate c =
    if c.current_quantity == 0 then buy ∷ no_trade ∷ [] else reduce ∷ exit ∷ []
allowed_actions _ debate c =
    if c.current_quantity == 0 then buy ∷ no_trade ∷ [] else label_actions debate.consensus_label

module _ (max_requested_position_pct_nav : ℕ) where
  -- `_new_entry_target`
  unfoldable pub new_entry_target : DebateReport → ℕ
  new_entry_target debate = min max_requested_position_pct_nav (raw_new_entry_target debate)

  -- `_deterministic_action` where the trigger is none of the position's own.
  unfoldable pub reviewed_action : DebateReport → PortfolioContext → TraderAction
  reviewed_action debate c =
      if is_bullish debate.consensus_label
        && is_strong debate.consensus_score
        && ltb c.current_position_pct_nav (new_entry_target debate)
      then buy
      else hold

  -- `_deterministic_action`
  unfoldable pub deterministic_action :
      LifecycleTrigger → DebateReport → PortfolioContext → TraderAction
  deterministic_action new_entry debate c = new_entry_action debate
  deterministic_action stop_loss debate c = exit
  deterministic_action take_profit debate c = reduce
  deterministic_action thesis_invalidated debate c = exit
  deterministic_action thesis_weakened debate c = reduce
  deterministic_action _ debate c = reviewed_action debate c

  -- `_target_for_action`
  unfoldable pub target_for_action : TraderAction → DebateReport → PortfolioContext → ℕ
  target_for_action buy debate c = max c.current_position_pct_nav (new_entry_target debate)
  target_for_action hold debate c = c.current_position_pct_nav
  target_for_action reduce debate c = reduced_target c.current_position_pct_nav
  target_for_action _ debate c = 0

  -- `_deterministic_decision`, of the confidences of the reports.
  unfoldable pub deterministic_decision :
      (reports : List ℕ) → DebateReport → PortfolioContext → ProposalDecision
  deterministic_decision reports debate c =
      let trigger = lifecycle_trigger debate c in
      let action = deterministic_action trigger debate c in
      record {
        action = action;
        confidence = confidence_of reports debate;
        target_position_pct_nav = target_for_action action debate c;
        lifecycle_trigger = trigger;
      }
