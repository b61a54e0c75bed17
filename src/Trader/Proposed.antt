-- ===== src/Trader/Proposed.antt =====
-- The proposals of `TraderAgent`.
use mathlib.Core.Path.{subst}
use mathlib.Core.Option.{some-injective}
use taurus_agent.Base.{
  ℕ, ◌*◌, ◌<◌, ◌≡◌, ◌⊎◌, ◌∙◌, Option, Result, err, or_raise, >>=-eq-ok, debate_missing, refl, sym,
  true, false, not, ◌&&◌, List, none, some, ◌==◌, ltb, leb, if◌then◌else◌, map, length, sort_by, ok,
  raise_if-eq-ok, ok_injective, reports_missing, symbol_mismatch, proposal_out_of_range, arith,
  Bool-cases, inl, inr,
}
use taurus_agent.Base.Int.{ℤ, pos, negsuc}
use taurus_agent.Risk.{TraderAction, buy, sell, hold, no_trade, reduce, exit, TraderProposal}
use taurus_agent.Store.{Session}
use taurus_agent.Store.Queries.{latest_account_by_portfolio}
use taurus_agent.RunAllocation.FallbackTotal.{IsProposal}
use taurus_agent.Trader.Context.{
  LifecycleTrigger, new_entry, hold_review, stop_loss, take_profit, thesis_weakened,
  thesis_invalidated, portfolio_rebalance, DebateReport, PortfolioContext, ProposalDecision,
  equity_of, exposure_pct, context_at, portfolio_context,
}
use taurus_agent.Trader.Lifecycle.{lifecycle_trigger, allowed_actions, deterministic_action}
use taurus_agent.Trader.Advice.{
  Answer, Loaded, is_allowed, run_decision, advisory_llm_decision, market_hours_decision,
  proposal_in_range, proposal_of, after_debate, propose,
}
use taurus_agent.Trader.Envelope.{
  Fits, IsWithin, run_decision-IsWithin, advised-IsWithin, stop-Settled, profit-Settled,
}

-- Nothing held is no exposure.
idle_exposure :
    (quantity latest : ℕ) (equity : ℤ)
    → quantity ≡ 0
    → exposure_pct (if ltb 0 quantity && ltb 0 latest then latest * quantity else 0) equity ≡ 0
idle_exposure quantity latest (negsuc n) e = refl
idle_exposure quantity latest (pos n) e = elim (Bool-cases (ltb 0 n)) [
  | inl rich ↦ rw (e, rich) refl
  | inr poor ↦ rw (e, poor) refl
]

pub context-idle :
    (db : Session) (portfolio_id symbol : ℕ)
    → (portfolio_context db portfolio_id symbol none).current_quantity ≡ 0
    → (portfolio_context db portfolio_id symbol none).current_position_pct_nav ≡ 0
unfolding portfolio_context context_at
context-idle db portfolio_id symbol e =
    let c = portfolio_context db portfolio_id symbol none in
    idle_exposure c.current_quantity c.latest_close_inr
      (equity_of (latest_account_by_portfolio db portfolio_id)) e

in_range-IsProposal : (p : TraderProposal) → proposal_in_range p ≡ true → IsProposal p
unfolding proposal_in_range
in_range-IsProposal p h = record {
  requested = ground arith;
  current = ground arith;
  target = ground arith;
}

-- At the position's own limits the position is left, or at its profit reduced.
abbrev pub Obeys : LifecycleTrigger → TraderAction → Type 0
Obeys stop_loss action = action ≡ exit
Obeys take_profit action = (action ≡ reduce) ⊎ (action ≡ exit)
Obeys _ action = Unit

permitted-Obeys :
    (trigger : LifecycleTrigger) (action : TraderAction) (debate : DebateReport)
    (c : PortfolioContext)
    → is_allowed action (allowed_actions trigger debate c) ≡ true
    → Obeys trigger action
unfolding allowed_actions
permitted-Obeys stop_loss exit debate c h = refl
permitted-Obeys stop_loss buy debate c h = cc
permitted-Obeys stop_loss sell debate c h = cc
permitted-Obeys stop_loss hold debate c h = cc
permitted-Obeys stop_loss no_trade debate c h = cc
permitted-Obeys stop_loss reduce debate c h = cc
permitted-Obeys take_profit exit debate c h = inr refl
permitted-Obeys take_profit reduce debate c h = inl refl
permitted-Obeys take_profit buy debate c h = absurd (cc)
permitted-Obeys take_profit sell debate c h = absurd (cc)
permitted-Obeys take_profit hold debate c h = absurd (cc)
permitted-Obeys take_profit no_trade debate c h = absurd (cc)
permitted-Obeys new_entry action debate c h = tt
permitted-Obeys hold_review action debate c h = tt
permitted-Obeys thesis_weakened action debate c h = tt
permitted-Obeys thesis_invalidated action debate c h = tt
permitted-Obeys portfolio_rebalance action debate c h = tt

-- What is said of a proposal in its context.
abbrev IsSound : ℕ → DebateReport → (symbol : ℕ) → PortfolioContext → TraderProposal → Type 0
IsSound max_pct debate symbol c p =
    (p.symbol ≡ symbol)
    × IsProposal p
    × (is_allowed p.action (allowed_actions (lifecycle_trigger debate c) debate c) ≡ true)
    × Fits max_pct p.action p.target_position_pct_nav c
    × Obeys (lifecycle_trigger debate c) p.action

proposal_of-IsSound :
    (max_pct proposal_id run_id portfolio_id symbol : ℕ) (ids : List ℕ) (debate : DebateReport)
    (c : PortfolioContext) (d : ProposalDecision)
    → not (debate.symbol == symbol) ≡ false
    → not (proposal_in_range (proposal_of proposal_id run_id portfolio_id ids debate c d)) ≡ false
    → 0 < max_pct
    → IsWithin max_pct (allowed_actions (lifecycle_trigger debate c) debate c) c d
    → IsSound max_pct debate symbol c (proposal_of proposal_id run_id portfolio_id ids debate c d)
unfolding proposal_of
proposal_of-IsSound max_pct proposal_id run_id portfolio_id symbol ids debate c d same valid l
      within =
    (
      ground arith,
      in_range-IsProposal (proposal_of proposal_id run_id portfolio_id ids debate c d)
          (ground arith),
      within.permitted,
      within.fits,
      permitted-Obeys (lifecycle_trigger debate c) d.action debate c within.permitted,
    )

pub decided-IsWithin :
    (max_pct : ℕ) (asked : Result Answer) (confidences : List ℕ) (debate : DebateReport)
    (c : PortfolioContext) {d : ProposalDecision}
    → 0 < max_pct
    → (c.current_quantity ≡ 0 → c.current_position_pct_nav ≡ 0)
    → run_decision max_pct asked confidences debate c ≡ ok d
    → IsWithin max_pct (allowed_actions (lifecycle_trigger debate c) debate c) c d
unfolding run_decision advisory_llm_decision
decided-IsWithin max_pct (err e) confidences debate c positive empty h = absurd (cc)
decided-IsWithin max_pct (ok answer) confidences debate c positive empty h =
    let (d, decided, within) =
      run_decision-IsWithin max_pct positive answer confidences debate c empty in
    subst (IsWithin max_pct (allowed_actions (lifecycle_trigger debate c) debate c) c)
      (ok_injective (sym decided ∙ h)) within

given_debate :
    (found : Option DebateReport) (debate other : DebateReport)
    → found ≡ some debate
    → or_raise found debate_missing ≡ ok other
    → other ≡ debate
given_debate none debate other e h = absurd (cc)
given_debate (some x) debate other e h = sym (ok_injective h) ∙ some-injective x debate e

-- A proposal that the trader makes is about the symbol's debate and meets its constraints, and
-- whatever the language model answers, its action is one that the position's trigger allows, at the
-- stop loss an exit and at the profit a reduction or an exit: a purchase aims above the current
-- exposure and no higher than the limit, which is positive, a hold keeps it, a reduction aims at half
-- of it or less, to half a unit, and an exit at nothing, each of the three with a position, and
-- without one no trade aims at nothing. No proposal is a `SELL`.
pub propose-Fits :
    (db : Session) (max_pct proposal_id run_id portfolio_id symbol : ℕ) (loaded : Loaded)
    (debate : DebateReport) (asked : Result Answer) {p : TraderProposal}
    → 0 < max_pct
    → loaded.debate ≡ ok (some debate)
    → propose db max_pct proposal_id run_id portfolio_id symbol loaded asked ≡ ok p
    → (p.symbol ≡ symbol)
      × IsProposal p
      × (is_allowed p.action (
            allowed_actions
              (lifecycle_trigger debate (portfolio_context db portfolio_id symbol none))
              debate
              (portfolio_context db portfolio_id symbol none))
          ≡ true)
      × Fits max_pct p.action p.target_position_pct_nav
          (portfolio_context db portfolio_id symbol none)
      × Obeys (lifecycle_trigger debate (portfolio_context db portfolio_id symbol none)) p.action
unfolding propose after_debate
propose-Fits db max_pct proposal_id run_id portfolio_id symbol loaded debate asked {p} positive
      given h =
    let c = portfolio_context db portfolio_id symbol none in
    let (reports, _, h) = >>=-eq-ok loaded.reports _ h in
    let (_, h) = raise_if-eq-ok (length reports == 0) reports_missing _ h in
    let (found, loading, h) = >>=-eq-ok loaded.debate _ h in
    let (other, passed, h) = >>=-eq-ok (or_raise found debate_missing) _ h in
    let (same, h) = raise_if-eq-ok (not (other.symbol == symbol)) symbol_mismatch _ h in
    let (_, _, h) = >>=-eq-ok loaded.portfolio _ h in
    let confidences = map (λ r. r.1) reports in
    let (d, decided, h) = >>=-eq-ok (run_decision max_pct asked confidences other c) _ h in
    let ids = sort_by leb (map (λ r. r.0) reports) in
    let made = proposal_of proposal_id run_id portfolio_id ids other c d in
    let (valid, h) =
      raise_if-eq-ok (not (proposal_in_range made)) proposal_out_of_range (ok made) h in
    let within =
      decided-IsWithin max_pct asked confidences other c positive
        (context-idle db portfolio_id symbol) decided in
    let sound =
      proposal_of-IsSound max_pct proposal_id run_id portfolio_id symbol ids other c d same valid
        positive within in
    subst (λ x. IsSound max_pct x symbol c p)
      (given_debate found debate other (ok_injective (sym loading ∙ given)) passed)
      (subst (IsSound max_pct other symbol c) (ok_injective h) sound)

abbrev IsMonitored :
    ℕ → Answer → (confidence : ℕ) → DebateReport → PortfolioContext → LifecycleTrigger → Type 0
IsMonitored max_pct answer confidence debate c trigger =
    (d : ProposalDecision) × (market_hours_decision max_pct (ok answer) trigger confidence debate c
      ≡ ok d)
    × IsWithin max_pct (allowed_actions trigger debate c) c d
    × Obeys trigger d.action

module _ (max_pct : ℕ) (answer : Answer) (confidence : ℕ) (debate : DebateReport)
    (c : PortfolioContext) (l : 0 < max_pct) (held : 0 < c.current_quantity) where
  stop-IsMonitored : IsMonitored max_pct answer confidence debate c stop_loss
  unfolding market_hours_decision advisory_llm_decision deterministic_action
  stop-IsMonitored =
      let (permitted, fits) = stop-Settled max_pct l debate c held in
      let within =
        advised-IsWithin max_pct l answer _ c _ (record { permitted = permitted; fits = fits }) in
      (_, refl, within, permitted-Obeys stop_loss _ debate c within.permitted)

  profit-IsMonitored : IsMonitored max_pct answer confidence debate c take_profit
  unfolding market_hours_decision advisory_llm_decision deterministic_action
  profit-IsMonitored =
      let (permitted, fits) = profit-Settled max_pct l debate c held in
      let within =
        advised-IsWithin max_pct l answer _ c _ (record { permitted = permitted; fits = fits }) in
      (_, refl, within, permitted-Obeys take_profit _ debate c within.permitted)

-- What the monitor of the market hours decides for a held position, by whatever answer of the
-- language model: at its stop loss an exit, at its profit a reduction or an exit, which the trigger
-- allows, within the limits of that action.
pub market_hours-IsWithin :
    (max_pct : ℕ) (answer : Answer) (trigger : LifecycleTrigger) (confidence : ℕ)
    (debate : DebateReport) (c : PortfolioContext)
    → 0 < max_pct
    → (trigger ≡ stop_loss) ⊎ (trigger ≡ take_profit)
    → 0 < c.current_quantity
    → (d : ProposalDecision) × (market_hours_decision max_pct
          (ok answer)
          trigger
          confidence
          debate
          c
        ≡ ok d)
      × IsWithin max_pct (allowed_actions trigger debate c) c d
      × Obeys trigger d.action
unfolding market_hours_decision
market_hours-IsWithin max_pct answer trigger confidence debate c l (inl e) held =
    subst (IsMonitored max_pct answer confidence debate c) (sym e)
      (stop-IsMonitored max_pct answer confidence debate c l held)
market_hours-IsWithin max_pct answer trigger confidence debate c l (inr e) held =
    subst (IsMonitored max_pct answer confidence debate c) (sym e)
      (profit-IsMonitored max_pct answer confidence debate c l held)
