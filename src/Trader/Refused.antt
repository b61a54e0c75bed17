-- ===== src/Trader/Refused.antt =====
-- Why `TraderAgent.run` makes no proposal.
use native.Mathlib.Decide.{dec_lt}
use mathlib.Core.Path.{subst, sym, ap}
use taurus_agent.Base.{
  ℕ, ◌≤◌, ◌<◌, ◌≡◌, refl, true, false, not, ◌&&◌, List, Option, none, some, ◌==◌, leb, map, length,
  ok, err, Error, Result, raise_if, or_raise, ◌>>=◌, ◌>>◌, >>=-eq-err, raise_if-eq-err,
  ok_injective, err_injective, reports_missing, debate_missing, symbol_mismatch,
  proposal_out_of_range, arith, Bool-cases, inl, inr,
}
use taurus_agent.Policy.Sections.{hundred}
use taurus_agent.Risk.{TraderAction, buy, sell, hold, no_trade, reduce, exit}
use taurus_agent.Store.{Session}
use taurus_agent.Trader.Context.{
  DebateReport, PortfolioContext, ProposalDecision, portfolio_context,
}
use taurus_agent.Trader.Lifecycle.{confidence_of, deterministic_decision}
use taurus_agent.Trader.Advice.{
  LlmTraderOutput, Answer, no_provider, provider_failed, returned, is_allowed, target_is_valid,
  is_purchase, clamped_target, validated_llm_decision, advisory_llm_decision, run_decision, advised,
  advisory_llm_decision, after_debate, Loaded, proposal_in_range, proposal_of, propose,
}
use taurus_agent.Trader.Envelope.{Fits}
use taurus_agent.Trader.Proposed.{context-idle, decided-IsWithin}

-- The constraint of `LLMTraderOutput` on its confidence.
abbrev pub IsAnswer : Answer → Type 0
IsAnswer no_provider = Unit
IsAnswer provider_failed = Unit
IsAnswer (returned output) = output.confidence ≤ 10_000

abbrev IsSure : ProposalDecision → Type 0
IsSure d = d.confidence ≤ 10_000

confidence-le : (reports : List ℕ) (debate : DebateReport) → confidence_of reports debate ≤ 10_000
unfolding confidence_of
confidence-le reports debate = omega arith

validated-IsSure :
    (max_pct : ℕ) (output : LlmTraderOutput) (allowed : List TraderAction) (c : PortfolioContext)
    (fallback : ProposalDecision)
    → output.confidence ≤ 10_000
    → IsSure fallback
    → IsSure (validated_llm_decision max_pct output allowed c fallback)
unfolding validated_llm_decision
validated-IsSure max_pct output allowed c fallback l own =
    let a = output.action in
    let t = output.target_position_pct_nav in
    elim (Bool-cases (is_allowed a allowed)) [
      | inr other ↦ rw other own
      | inl permitted ↦ elim (Bool-cases (target_is_valid a t c)) [
        | inr invalid ↦ rw (permitted, invalid) own
        | inl valid ↦
            elim (Bool-cases
              (is_purchase a && leb (clamped_target max_pct a t c) c.current_position_pct_nav)) [
                | inl idle ↦ rw (permitted, valid, idle) own
                | inr more ↦ rw (permitted, valid, more) l
              ]
      ]
    ]

decided-IsSure :
    (max_pct : ℕ) (answer : Answer) (confidences : List ℕ) (debate : DebateReport)
    (c : PortfolioContext) {d : ProposalDecision}
    → IsAnswer answer
    → run_decision max_pct (ok answer) confidences debate c ≡ ok d
    → IsSure d
unfolding run_decision advisory_llm_decision advised deterministic_decision
decided-IsSure max_pct no_provider confidences debate c l h =
    subst IsSure (ok_injective h) (confidence-le confidences debate)
decided-IsSure max_pct provider_failed confidences debate c l h =
    subst IsSure (ok_injective h) (confidence-le confidences debate)
decided-IsSure max_pct (returned output) confidences debate c l h =
    subst IsSure (ok_injective h)
      (validated-IsSure max_pct output _ c _ l (confidence-le confidences debate))

-- The decision raises only what the provider does.
decision_raised :
    (max_pct : ℕ) (asked : Result Answer) (confidences : List ℕ) (debate : DebateReport)
    (c : PortfolioContext) {e : Error}
    → run_decision max_pct asked confidences debate c ≡ err e
    → asked ≡ err e
unfolding run_decision advisory_llm_decision
decision_raised max_pct (err raised) confidences debate c h =
    ap (λ (x : Error). err x) (err_injective h)
decision_raised max_pct (ok answer) confidences debate c h = absurd (cc)

-- A target that fits is a percentage where the exposure and the limit are.
Fits-le :
    (max_pct : ℕ) (action : TraderAction) (target : ℕ) (c : PortfolioContext)
    → max_pct ≤ hundred
    → c.current_position_pct_nav ≤ hundred
    → Fits max_pct action target c
    → target ≤ hundred
Fits-le max_pct buy target c l h (more, within) = omega arith
Fits-le max_pct hold target c l h (same, held) = omega arith
Fits-le max_pct reduce target c l h (half, held) = omega arith
Fits-le max_pct exit target c l h (nothing, held) = omega arith
Fits-le max_pct no_trade target c l h (nothing, none_held) = omega arith
Fits-le max_pct sell target c l h fits = absurd fits

-- A proposal is out of range only where the exposure is.
range_refused :
    (max_pct proposal_id run_id portfolio_id : ℕ) (ids : List ℕ) (debate : DebateReport)
    (c : PortfolioContext) (d : ProposalDecision)
    → max_pct ≤ hundred
    → IsSure d
    → Fits max_pct d.action d.target_position_pct_nav c
    → not (proposal_in_range (proposal_of proposal_id run_id portfolio_id ids debate c d)) ≡ true
    → hundred < c.current_position_pct_nav
unfolding proposal_in_range proposal_of
range_refused max_pct proposal_id run_id portfolio_id ids debate c d l sure fits h =
    elim (dec_lt hundred c.current_position_pct_nav) [
      | yes over ↦ over
      | no within ↦
          let target = Fits-le max_pct d.action d.target_position_pct_nav c l (omega arith) fits in
          absurd (ground arith)
    ]

-- The causes of an exception before the proposal is stored: a payload that does not validate, no
-- reports, no debate, a debate about another symbol, an exception of the provider that is not
-- caught, or an exposure above the whole value.
pub data Refusal (db : Session) (portfolio_id symbol : ℕ) (loaded : Loaded) (asked : Result Answer)
    : Error → Type 0 where
  reports_broken :
      {e : Error} → loaded.reports ≡ err e → Refusal db portfolio_id symbol loaded asked e
  no_reports :
      (reports : List (ℕ × ℕ))
      → loaded.reports ≡ ok reports
      → length reports ≡ 0
      → Refusal db portfolio_id symbol loaded asked reports_missing
  debate_broken :
      {e : Error} → loaded.debate ≡ err e → Refusal db portfolio_id symbol loaded asked e
  no_debate : loaded.debate ≡ ok none → Refusal db portfolio_id symbol loaded asked debate_missing
  other_symbol :
      (debate : DebateReport)
      → loaded.debate ≡ ok (some debate)
      → (debate.symbol == symbol) ≡ false
      → Refusal db portfolio_id symbol loaded asked symbol_mismatch
  portfolio_broken :
      {e : Error} → loaded.portfolio ≡ err e → Refusal db portfolio_id symbol loaded asked e
  provider_raised : {e : Error} → asked ≡ err e → Refusal db portfolio_id symbol loaded asked e
  exposed :
      hundred < (portfolio_context db portfolio_id symbol none).current_position_pct_nav
      → Refusal db portfolio_id symbol loaded asked proposal_out_of_range

module _ (db : Session) (max_pct proposal_id run_id portfolio_id symbol : ℕ) (loaded : Loaded)
    (asked : Result Answer) (positive : 0 < max_pct) (l : max_pct ≤ hundred)
    (sure : (answer : Answer) → asked ≡ ok answer → IsAnswer answer) where
  abbrev Why : Error → Type 0
  Why = Refusal db portfolio_id symbol loaded asked

  abbrev context : PortfolioContext
  context = portfolio_context db portfolio_id symbol none

  asked-IsSure :
      (confidences : List ℕ) (debate : DebateReport) (d : ProposalDecision)
      → run_decision max_pct asked confidences debate context ≡ ok d
      → IsSure d
  unfolding run_decision advisory_llm_decision
  asked-IsSure confidences debate d decided = go asked sure decided
    where
      go :
          (a : Result Answer)
          → ((answer : Answer) → a ≡ ok answer → IsAnswer answer)
          → run_decision max_pct a confidences debate context ≡ ok d
          → IsSure d
      go (err e) sure h = absurd (cc)
      go (ok answer) sure h =
          decided-IsSure max_pct answer confidences debate context (sure answer refl) h

  -- A decision that is made gives a proposal in range, or the exposure is not.
  decided_refused :
      (confidences ids : List ℕ) (debate : DebateReport) (d : ProposalDecision) {e : Error}
      → run_decision max_pct asked confidences debate context ≡ ok d
      → (raise_if
            (not (
              proposal_in_range (proposal_of proposal_id run_id portfolio_id ids debate context d)))
            proposal_out_of_range
          >> ok (proposal_of proposal_id run_id portfolio_id ids debate context d))
        ≡ err e
      → Why e
  decided_refused confidences ids debate d decided h =
      let within =
        decided-IsWithin max_pct asked confidences debate context positive
          (context-idle db portfolio_id symbol) decided in
      let made = proposal_of proposal_id run_id portfolio_id ids debate context d in
      elim (raise_if-eq-err (not (proposal_in_range made)) proposal_out_of_range (ok made) h) [
        | inl (e, out) ↦ subst Why (sym e) (
            exposed (
              range_refused max_pct proposal_id run_id portfolio_id ids debate context d l
                (asked-IsSure confidences debate d decided) within.fits out))
        | inr (_, h) ↦ absurd (cc)
      ]

  debated_refused :
      (reports : List (ℕ × ℕ)) (debate : DebateReport) {e : Error}
      → loaded.debate ≡ ok (some debate)
      → after_debate db max_pct proposal_id run_id portfolio_id symbol loaded asked reports debate
        ≡ err e
      → Why e
  unfolding after_debate
  debated_refused reports debate given h =
      elim (raise_if-eq-err (not (debate.symbol == symbol)) symbol_mismatch _ h) [
        | inl (e, other) ↦ subst Why (sym e) (other_symbol debate given (ground arith))
        | inr (_, h) ↦ elim (>>=-eq-err loaded.portfolio _ h) [
          | inl broken ↦ portfolio_broken broken
          | inr (_, _, h) ↦
              elim (>>=-eq-err (run_decision max_pct asked (map (λ r. r.1) reports) debate context)
                _ h) [
                  | inl raised ↦
                      provider_raised (decision_raised max_pct asked _ debate context raised)
                  | inr (d, decided, h) ↦
                      decided_refused (map (λ r. r.1) reports) _ debate d decided h
                ]
        ]
      ]

  found_refused :
      (reports : List (ℕ × ℕ)) (found : Option DebateReport) {e : Error}
      → loaded.debate ≡ ok found
      → (or_raise found debate_missing >>= λ debate.
          after_debate db max_pct proposal_id run_id portfolio_id symbol loaded asked reports
            debate)
        ≡ err e
      → Why e
  found_refused reports none given h =
      let e : debate_missing ≡ _ = err_injective h in subst Why e (no_debate given)
  found_refused reports (some debate) given h = debated_refused reports debate given h

-- With a limit that is a positive percentage, and a provider whose outputs meet their constraint on
-- the confidence, the trader raises an exception before it stores the proposal only for a payload that
-- does not validate, for want of reports or of a debate, for a debate about another symbol, for an
-- exception of the provider that it does not catch, or for an exposure above the whole value of the
-- portfolio.
pub propose_refused :
    (db : Session) (max_pct proposal_id run_id portfolio_id symbol : ℕ) (loaded : Loaded)
    (asked : Result Answer) {e : Error}
    → 0 < max_pct
    → max_pct ≤ hundred
    → ((answer : Answer) → asked ≡ ok answer → IsAnswer answer)
    → propose db max_pct proposal_id run_id portfolio_id symbol loaded asked ≡ err e
    → Refusal db portfolio_id symbol loaded asked e
unfolding propose
propose_refused db max_pct proposal_id run_id portfolio_id symbol loaded asked positive l sure h =
    elim (>>=-eq-err loaded.reports _ h) [
      | inl broken ↦ reports_broken broken
      | inr (reports, given, h) ↦ elim (raise_if-eq-err (length reports == 0) reports_missing _ h) [
        | inl (e, empty) ↦
            subst (Refusal db portfolio_id symbol loaded asked) (sym e)
              (no_reports reports given (ground arith))
        | inr (_, h) ↦ elim (>>=-eq-err loaded.debate _ h) [
          | inl broken ↦ debate_broken broken
          | inr (found, given, h) ↦
              found_refused db max_pct proposal_id run_id portfolio_id symbol loaded asked positive
                l sure reports found given h
        ]
      ]
    ]
