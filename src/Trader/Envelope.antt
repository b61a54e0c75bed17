-- ===== src/Trader/Envelope.antt =====
-- The limits within which the trader takes a language model's advice.
use taurus_agent.Base.{
  ℕ, ◌+◌, ◌-◌, ◌*◌, ◌≤◌, ◌<◌, ◌≡◌, refl, true, false, ◌&&◌, List, ◌==◌, ltb, leb, max, arith,
  Bool-cases, inl, inr, ok,
}
use taurus_agent.Money.Paise.{half_even_bounds}
use taurus_agent.Risk.{TraderAction, buy, sell, hold, no_trade, reduce, exit}
use taurus_agent.Trader.Context.{
  ConsensusLabel, bullish, mild_bullish, neutral, mild_bearish, bearish, LifecycleTrigger,
  new_entry, hold_review, stop_loss, take_profit, DebateReport, PortfolioContext, ProposalDecision,
  reaches_percent,
}
use taurus_agent.Trader.Lifecycle.{
  is_bullish, is_strong, label_trigger, lifecycle_trigger, raw_new_entry_target, reduced_target,
  new_entry_action, allowed_actions, new_entry_target, reviewed_action, deterministic_action,
  target_for_action, deterministic_decision,
}
use taurus_agent.Trader.Advice.{
  LlmTraderOutput, Answer, no_provider, provider_failed, returned, is_allowed, target_is_valid,
  is_purchase, clamped_target, validated_llm_decision, advised, advisory_llm_decision, run_decision,
}

reduced-le : (current : ℕ) → 2 * reduced_target current ≤ current + 1
unfolding reduced_target
reduced-le current = elim (Bool-cases (current == 0)) [
  | inl none_held ↦ rw none_held (omega arith)
  | inr held ↦ rw held (omega (arith, half_even_bounds current 2 (omega arith)))
]

module _ (max_pct : ℕ) where
  -- What an action may do to the exposure.
  abbrev pub Fits : TraderAction → (target : ℕ) → PortfolioContext → Type 0
  Fits buy target c = (c.current_position_pct_nav < target) × (target ≤ max_pct)
  Fits hold target c = (target ≡ c.current_position_pct_nav) × (0 < c.current_quantity)
  Fits reduce target c = (2 * target ≤ c.current_position_pct_nav + 1) × (0 < c.current_quantity)
  Fits exit target c = (target ≡ 0) × (0 < c.current_quantity)
  Fits no_trade target c = (target ≡ 0) × (c.current_quantity ≡ 0)
  Fits sell target c = ⊥

  -- An allowed action whose target fits.
  pub record IsWithin (allowed : List TraderAction) (c : PortfolioContext) (d : ProposalDecision)
      : Type 0 where
    pub permitted : is_allowed d.action allowed ≡ true
    pub fits : Fits d.action d.target_position_pct_nav c

module _ (max_pct : ℕ) (positive : 0 < max_pct) where
  -- The advice that passes the trader's checks.
  advice-Fits :
      (action : TraderAction) (target : ℕ) (c : PortfolioContext)
      → target_is_valid action target c ≡ true
      → (is_purchase action
          && leb (clamped_target max_pct action target c) c.current_position_pct_nav)
        ≡ false
      → Fits max_pct action (clamped_target max_pct action target c) c
  unfolding target_is_valid clamped_target
  advice-Fits buy target c valid more = (ground arith, omega arith)
  advice-Fits hold target c valid more = (refl, ground arith)
  advice-Fits reduce target c valid more =
      (omega (arith, reduced-le c.current_position_pct_nav), ground arith)
  advice-Fits exit target c valid more = (refl, ground arith)
  advice-Fits no_trade target c valid more = (refl, ground arith)
  advice-Fits sell target c valid more = absurd (cc)

  validated-IsWithin :
      (output : LlmTraderOutput) (allowed : List TraderAction) (c : PortfolioContext)
      (fallback : ProposalDecision)
      → IsWithin max_pct allowed c fallback
      → IsWithin max_pct allowed c (validated_llm_decision max_pct output allowed c fallback)
  unfolding validated_llm_decision
  validated-IsWithin output allowed c fallback own =
      let a = output.action in
      let t = output.target_position_pct_nav in
      elim (Bool-cases (is_allowed a allowed)) [
        | inr other ↦ rw other own
        | inl permitted ↦ elim (Bool-cases (target_is_valid a t c)) [
          | inr invalid ↦ rw (permitted, invalid) own
          | inl valid ↦
              elim (Bool-cases
                (is_purchase a && leb (clamped_target max_pct a t c) c.current_position_pct_nav)) [
                  | inl idle ↦ rw (permitted, valid, idle) own
                  | inr more ↦
                      rw (permitted, valid, more)
                        (record { permitted = permitted; fits = advice-Fits a t c valid more })
                ]
        ]
      ]

  pub advised-IsWithin :
      (answer : Answer) (allowed : List TraderAction) (c : PortfolioContext)
      (fallback : ProposalDecision)
      → IsWithin max_pct allowed c fallback
      → IsWithin max_pct allowed c (advised max_pct answer allowed c fallback)
  unfolding advised
  advised-IsWithin no_provider allowed c fallback own = own
  advised-IsWithin provider_failed allowed c fallback own = own
  advised-IsWithin (returned output) allowed c fallback own =
      validated-IsWithin output allowed c fallback own

  -- The trader's own action for a trigger.
  abbrev Settled : DebateReport → PortfolioContext → LifecycleTrigger → Type 0
  Settled debate c trigger =
      let action = deterministic_action max_pct trigger debate c in
      (is_allowed action (allowed_actions trigger debate c) ≡ true)
      × Fits max_pct action (target_for_action max_pct action debate c) c

  entry-Settled :
      (debate : DebateReport) (c : PortfolioContext)
      → c.current_quantity ≡ 0
      → c.current_position_pct_nav ≡ 0
      → Settled debate c new_entry
  unfolding deterministic_action new_entry_action allowed_actions target_for_action new_entry_target
      raw_new_entry_target
  entry-Settled debate c none_held no_exposure =
      let e : (c.current_quantity == 0) ≡ true = ground arith in
      elim (Bool-cases (is_bullish debate.consensus_label && is_strong debate.consensus_score)) [
        | inl rising ↦ rw (rising, e) (refl, (omega arith, omega arith))
        | inr other ↦ rw (other, e) (refl, (refl, none_held))
      ]

  bought_within :
      (debate : DebateReport) (c : PortfolioContext)
      → (is_strong debate.consensus_score
          && ltb c.current_position_pct_nav (new_entry_target max_pct debate))
        ≡ true
      → Fits max_pct buy (max c.current_position_pct_nav (new_entry_target max_pct debate)) c
  unfolding new_entry_target
  bought_within debate c h =
      let more : c.current_position_pct_nav < new_entry_target max_pct debate = ground arith in
      (omega arith, omega arith)

  review-Settled :
      (debate : DebateReport) (c : PortfolioContext)
      → 0 < c.current_quantity
      → Settled debate c hold_review
  unfolding deterministic_action reviewed_action allowed_actions target_for_action
  review-Settled debate c held =
      let e : (c.current_quantity == 0) ≡ false = ground arith in
      let rising = is_bullish debate.consensus_label in
      let strong = is_strong debate.consensus_score in
      let more = ltb c.current_position_pct_nav (new_entry_target max_pct debate) in
      elim (Bool-cases rising) [
        | inr other ↦ rw (other, e) (refl, (refl, held))
        | inl up ↦ elim (Bool-cases (strong && more)) [
          | inr enough ↦ rw (up, enough, e) (refl, (refl, held))
          | inl buys ↦ rw (up, buys, e) (refl, bought_within debate c buys)
        ]
      ]

  -- A position that the debate turns against, or that it leaves.
  label-Settled :
      (debate : DebateReport) (c : PortfolioContext)
      → 0 < c.current_quantity
      → (label : ConsensusLabel) → Settled debate c (label_trigger label)
  unfolding deterministic_action allowed_actions target_for_action
  label-Settled debate c held bullish = review-Settled debate c held
  label-Settled debate c held mild_bullish = review-Settled debate c held
  label-Settled debate c held neutral = review-Settled debate c held
  label-Settled debate c held mild_bearish =
      let e : (c.current_quantity == 0) ≡ false = ground arith in
      rw e (refl, (reduced-le c.current_position_pct_nav, held))
  label-Settled debate c held bearish =
      let e : (c.current_quantity == 0) ≡ false = ground arith in rw e (refl, (refl, held))

  pub stop-Settled :
      (debate : DebateReport) (c : PortfolioContext)
      → 0 < c.current_quantity
      → Settled debate c stop_loss
  unfolding deterministic_action allowed_actions target_for_action
  stop-Settled debate c held = (refl, (refl, held))

  pub profit-Settled :
      (debate : DebateReport) (c : PortfolioContext)
      → 0 < c.current_quantity
      → Settled debate c take_profit
  unfolding deterministic_action allowed_actions target_for_action
  profit-Settled debate c held = (refl, (reduced-le c.current_position_pct_nav, held))

  trigger-Settled :
      (debate : DebateReport) (c : PortfolioContext)
      → (c.current_quantity ≡ 0 → c.current_position_pct_nav ≡ 0)
      → Settled debate c (lifecycle_trigger debate c)
  unfolding lifecycle_trigger
  trigger-Settled debate c empty =
      let priced = ltb 0 c.average_cost_inr && ltb 0 c.latest_close_inr in
      let fallen =
        priced && reaches_percent (c.average_cost_inr - c.latest_close_inr) c.average_cost_inr 6 in
      let risen =
        priced && reaches_percent (c.latest_close_inr - c.average_cost_inr) c.average_cost_inr 12 in
      elim (Bool-cases (c.current_quantity == 0)) [
        | inl none_held ↦
            let e : c.current_quantity ≡ 0 = ground arith in
            rw none_held (entry-Settled debate c e (empty e))
        | inr some_held ↦
            let held : 0 < c.current_quantity = ground arith in
            elim (Bool-cases fallen) [
              | inl low ↦ rw (some_held, low) (stop-Settled debate c held)
              | inr above ↦ elim (Bool-cases risen) [
                | inl high ↦ rw (some_held, above, high) (profit-Settled debate c held)
                | inr between ↦
                    rw (some_held, above, between)
                      (label-Settled debate c held debate.consensus_label)
              ]
            ]
      ]

  -- The decision of a run is among the actions that the trader allows, within their limits.
  pub run_decision-IsWithin :
      (answer : Answer) (reports : List ℕ) (debate : DebateReport) (c : PortfolioContext)
      → (c.current_quantity ≡ 0 → c.current_position_pct_nav ≡ 0)
      → (d : ProposalDecision) × (run_decision max_pct (ok answer) reports debate c ≡ ok d)
        × IsWithin max_pct (allowed_actions (lifecycle_trigger debate c) debate c) c d
  unfolding run_decision advisory_llm_decision deterministic_decision
  run_decision-IsWithin answer reports debate c empty =
      let (permitted, fits) = trigger-Settled debate c empty in
      (_, refl, advised-IsWithin answer _ c _ (record { permitted = permitted; fits = fits }))
