-- ===== src/Tests/Trader.antt =====
-- The trader at sample inputs: a debate about a symbol that the broker has bought before.
use taurus_agent.Base.{
  ℕ, ◌<◌, ◌≡◌, inr, refl, [], ◌∷◌, none, some, true, Result, ok, err, arith, symbol_mismatch,
  provider_broken,
}
use taurus_agent.Base.Int.{pos, negsuc}
use taurus_agent.Risk.{TraderAction, TraderProposal, buy, sell, hold, reduce, exit}
use taurus_agent.Store.Queries.{latest_open_position_by_portfolio_symbol}
use taurus_agent.RunAllocation.FallbackTotal.{IsProposal}
use taurus_agent.Money.Paise.{quantize_ratio}
use taurus_agent.Trader.Context.{
  DebateReport, PortfolioContext, ProposalDecision, bullish, bearish, take_profit, context_at,
  portfolio_context, reaches_percent,
}
use taurus_agent.Trader.Lifecycle.{
  lifecycle_trigger, raw_new_entry_target, reduced_target, confidence_of, new_entry_action,
  allowed_actions, new_entry_target, reviewed_action, deterministic_action, target_for_action,
  deterministic_decision,
}
use taurus_agent.Trader.Advice.{
  Answer, Loaded, advised, after_debate, no_provider, provider_failed, returned, is_allowed,
  target_is_valid, clamped_target, validated_llm_decision, advisory_llm_decision, run_decision,
  market_hours_decision, proposal_in_range, proposal_of, propose,
}
use taurus_agent.Trader.Envelope.{Fits, IsWithin}
use taurus_agent.Trader.Refused.{IsAnswer, Refusal, propose_refused}
use taurus_agent.Trader.Proposed.{Obeys, propose-Fits, market_hours-IsWithin}
use taurus_agent.Tests.Approval.{entry}
use taurus_agent.Tests.Runs.{program, bought}

trader : Unit {0}
unfolding program quantize_ratio latest_open_position_by_portfolio_symbol context_at
    portfolio_context reaches_percent lifecycle_trigger raw_new_entry_target reduced_target
    confidence_of new_entry_action allowed_actions new_entry_target reviewed_action
    deterministic_action target_for_action deterministic_decision target_is_valid clamped_target
    validated_llm_decision advised after_debate advisory_llm_decision run_decision
    market_hours_decision proposal_in_range proposal_of propose
trader = tt

abbrev debate : DebateReport
debate = record {
  symbol = 7;
  as_of = 5_000;
  consensus_label = bullish;
  consensus_score = pos 9_000;
  confidence = 8_000;
}

held : PortfolioContext
unfolding trader bought
held = portfolio_context bought.1 1 7 none

-- The bought position is 61.0151% of the value.
held_exposure : held.current_position_pct_nav ≡ 610_151
unfolding held
held_exposure = refl

abbrev bear : DebateReport
bear = record debate { consensus_label = bearish; consensus_score = negsuc 6_999 }

abbrev advice : TraderAction → (target : ℕ) → Result Answer
advice action target =
    ok (returned (record { action = action; confidence = 6_000; target_position_pct_nav = target }))

-- The stored payloads of a call.
abbrev loaded_for : DebateReport → Loaded
loaded_for d = record {
  reports = ok ((12, 7_000) ∷ (11, 9_000) ∷ []);
  debate = ok (some d);
  portfolio = ok tt;
}

abbrev decide : DebateReport → Result Answer → Result TraderProposal
unfolding trader
decide d asked = propose bought.1 50_000 6 3 1 7 (loaded_for d) asked

abbrev outcome : Result TraderProposal → TraderAction × ℕ
outcome (ok p) = (p.action, p.target_position_pct_nav)
outcome (err e) = (sell, 0)

-- A bearish debate leaves the position; the model may reduce it, but not buy.
left_alone : outcome (decide bear (ok no_provider)) ≡ (exit, 0)
unfolding decide trader bought
left_alone = refl

reduced_on_advice : outcome (decide bear (advice reduce 200_000)) ≡ (reduce, 200_000)
unfolding decide trader bought
reduced_on_advice = refl

purchase_refused : outcome (decide bear (advice buy 900_000)) ≡ (exit, 0)
unfolding decide trader bought
purchase_refused = refl

-- A purchase on advice is cut to the limit, which is below the exposure.
cut_purchase : outcome (decide debate (advice buy 900_000)) ≡ (hold, 610_151)
unfolding decide trader bought
cut_purchase = refl

-- A symbol that is not held is bought at the limit.
new_purchase :
    outcome
      (propose bought.1 50_000 6 3 1 8 (loaded_for (record debate { symbol = 8 })) (ok no_provider))
    ≡ (buy, 50_000)
unfolding trader bought
new_purchase = refl

other_debate :
    propose bought.1 50_000 6 3 1 8 (loaded_for debate) (ok no_provider) ≡ err symbol_mismatch
unfolding trader bought
other_debate = refl

-- An exception of the provider that is not caught ends the call.
provider_broke : decide bear (err provider_broken) ≡ err provider_broken
unfolding decide trader bought
provider_broke = refl

abbrev value_or_entry : Result TraderProposal → TraderProposal
value_or_entry (ok p) = p
value_or_entry (err e) = entry

proposed : TraderProposal
unfolding decide trader bought
proposed = value_or_entry (decide bear (advice reduce 200_000))

proposed_returned :
    propose bought.1 50_000 6 3 1 7 (loaded_for bear) (advice reduce 200_000) ≡ ok proposed
unfolding proposed
proposed_returned = refl

propose-Fits_example :
    (proposed.symbol ≡ 7)
    × IsProposal proposed
    × (is_allowed proposed.action (
          allowed_actions
            (lifecycle_trigger bear (portfolio_context bought.1 1 7 none))
            bear
            (portfolio_context bought.1 1 7 none))
        ≡ true)
    × Fits 50_000 proposed.action proposed.target_position_pct_nav
        (portfolio_context bought.1 1 7 none)
    × Obeys (lifecycle_trigger bear (portfolio_context bought.1 1 7 none)) proposed.action
propose-Fits_example =
    propose-Fits bought.1 50_000 6 3 1 7 (loaded_for bear) bear (advice reduce 200_000)
      (omega arith) refl proposed_returned

held_quantity : 0 < held.current_quantity
unfolding held
held_quantity = omega arith

market_hours-IsWithin_example :
    (d : ProposalDecision) × (market_hours_decision 50_000
        (ok (
          returned
            (record { action = hold; confidence = 6_000; target_position_pct_nav = 610_151 })))
        take_profit
        7_000
        debate
        held
      ≡ ok d)
    × IsWithin 50_000 (allowed_actions take_profit debate held) held d
    × Obeys take_profit d.action
market_hours-IsWithin_example =
    market_hours-IsWithin 50_000
      (returned (record { action = hold; confidence = 6_000; target_position_pct_nav = 610_151 }))
      take_profit 7_000 debate held (omega arith) (inr refl) held_quantity

no_answer : (answer : Answer) → ok no_provider ≡ ok answer → IsAnswer answer
no_answer no_provider e = tt
no_answer provider_failed e = tt
no_answer (returned output) e = absurd (cc)

propose_refused_example : Refusal bought.1 1 8 (loaded_for debate) (ok no_provider) symbol_mismatch
propose_refused_example =
    propose_refused bought.1 50_000 6 3 1 8 (loaded_for debate) (ok no_provider) (omega arith)
      (omega arith) no_answer other_debate
