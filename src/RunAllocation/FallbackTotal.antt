-- ===== src/RunAllocation/FallbackTotal.antt =====
-- A run under the fallback policy raises nothing: its decisions meet the constraints of
-- `AllocationDecision`.
use taurus_agent.Base.{
  ℕ, ◌+◌, ◌*◌, ◌/◌, ◌≤◌, ◌<◌, ◌≡◌, refl, ◌∙◌, ap, Bool, true, false, not, ◌&&◌, ◌||◌, List, [], ◌∷◌,
  some, ltb, leb, ◌==◌, if◌then◌else◌, keep_if, map, sort_by, Result, ok, Returns, >>=-Returns,
  raise_if-Returns, allocation_out_of_range, All, All-keep_if, All-sort_by, arith, Bool-cases, inl,
  inr,
}
use taurus_agent.Base.Int.{ℤ, pos, negsuc, pos_part}
use taurus_agent.Money.Paise.{quantize_paise, quantize_mono, quantize_scaled, IsWhole, clamp}
use taurus_agent.Money.Ratio.{quantize_ratio-le}
use taurus_agent.Policy.Sections.{hundred, is_percent_or_none}
use taurus_agent.Risk.{TraderProposal, AllocationDecision, BindingConstraint}
use taurus_agent.Risk.Engine.{is_buy}
use taurus_agent.Allocation.Input.{ActiveAllocationPosition}
use taurus_agent.Allocation.Prices.{share_of, pct_to_notional, latest_close}
use taurus_agent.Allocation.Bounds.{quantize_zero}
use taurus_agent.Allocation.Decisions.{decision_in_range, checked_decision}
use taurus_agent.Allocation.Service.{target_position}
use taurus_agent.RunAllocation.Input.{
  FallbackAllocationPolicy, RunAllocationInput, Candidate, proposal_before, candidate_before,
}
use taurus_agent.RunAllocation.Status.{lifecycle_status}
use taurus_agent.RunAllocation.Run.{RunState, start, run_steps, RunAllocationResult}
use taurus_agent.RunAllocation.Fallback.{
  fallback_candidate_score, fallback_binding, fallback_decision, fallback_buy_decision,
  fallback_lifecycle_decision, fallback_lifecycle_step, fallback_buy_step, fallback_ranked_buys,
  fallback_state, allocate_with_fallback,
}
use taurus_agent.RunAllocation.Settings.{IsAffordable, binding-IsAffordable}

-- A share of the whole is no more than the whole.
share-le :
    (parts : ℕ) (nav : ℤ)
    → parts ≤ hundred
    → IsWhole (pos_part nav)
    → pct_to_notional parts nav ≤ pos_part nav
unfolding share_of
share-le parts (pos n) h w = elim (Bool-cases (parts == 0 || n == 0)) [
  | inl empty ↦ rw empty (omega arith)
  | inr full ↦
      let up = quantize_mono (n * parts) (n * hundred) hundred (omega arith) (grind arith) in
      rw full (omega (arith, quantize_scaled n hundred (omega arith) w))
]
share-le parts (negsuc n) h w = omega arith

target-le :
    (notional : ℕ) (nav : ℤ) → notional ≤ pos_part nav → target_position notional nav ≤ hundred
unfolding target_position
target-le notional (negsuc n) h = omega arith
target-le notional (pos n) h = elim (Bool-cases (n == 0)) [
  | inl empty ↦ rw empty (omega arith)
  | inr full ↦ rw full (quantize_ratio-le notional n hundred (omega arith) h)
]

clamp-le : (value upper : ℕ) → clamp value 0 upper ≤ upper
clamp-le value upper = omega arith

score-le : (i : RunAllocationInput) (p : TraderProposal) → fallback_candidate_score i p ≤ hundred
unfolding fallback_candidate_score
score-le i p = clamp-le _ hundred

four_hold :
    (a b c d : Bool) → a ≡ true → b ≡ true → c ≡ true → d ≡ true → not (a && b && c && d) ≡ false
four_hold a b c d e f g h = rw (e, f, g, h) refl

le-leb : (n m : ℕ) → n ≤ m → leb n m ≡ true
le-leb n m h = ground arith

checked-Returns :
    (d : AllocationDecision) (score : ℕ)
    → d.candidate_score ≡ some score
    → d.requested_position_pct_nav ≤ hundred
    → d.approved_position_pct_nav ≤ hundred
    → score ≤ hundred
    → d.governor_scale_factor ≤ 10_000
    → Returns (checked_decision d)
unfolding checked_decision decision_in_range
checked-Returns d score e a b c g =
    raise_if-Returns _ allocation_out_of_range (ok d)
      (four_hold _ _ _ _ (le-leb _ hundred a) (le-leb _ hundred b)
        (ap is_percent_or_none e ∙ le-leb score hundred c) (le-leb _ 10_000 g))
      (d, refl)

-- The `Field` constraints of `TraderProposal` on its shares of the value.
pub record IsProposal (p : TraderProposal) : Type 0 where
  pub requested : p.requested_position_pct_nav ≤ hundred
  pub current : p.current_position_pct_nav ≤ hundred
  pub target : p.target_position_pct_nav ≤ hundred

map-All {ℓ ℓ' κ} :
    {A : Type ℓ} {B : Type ℓ'} (P : B → Type κ) (f : A → B) (xs : List A)
    → All (λ x. P (f x)) xs
    → All P (map f xs)
map-All P f [] h = tt
map-All P f (x ∷ xs) h = (h.0, map-All P f xs h.1)

steps-Returns :
    (step : RunState → TraderProposal → Result RunState)
    → ((s : RunState) (p : TraderProposal) → IsProposal p → Returns (step s p))
    → (s : RunState) (ps : List TraderProposal) → All IsProposal ps
    → Returns (run_steps step s ps)
unfolding run_steps
steps-Returns step each s [] h = (s, refl)
steps-Returns step each s (p ∷ ps) h =
    >>=-Returns (step s p) (λ s'. run_steps step s' ps) (each s p h.0)
      (λ s' e. steps-Returns step each s' ps h.1)

module _ (i : RunAllocationInput) (policy : FallbackAllocationPolicy)
    (whole : IsWhole (pos_part i.nav_inr)) (cap : policy.max_position_pct_nav ≤ hundred) where
  lifecycle-Returns :
      (s : RunState) (p : TraderProposal)
      → IsProposal p
      → Returns (fallback_lifecycle_step i policy s p)
  unfolding fallback_lifecycle_step fallback_lifecycle_decision
  lifecycle-Returns s p valid =
      >>=-Returns (fallback_lifecycle_decision i policy p (lifecycle_status p)) _
        (checked-Returns _ (fallback_candidate_score i p) refl valid.requested valid.target
          (score-le i p) (omega arith))
        (λ d e. (_, refl))

  abbrev last : TraderProposal → ℕ
  last p = latest_close (i.histories_by_symbol p.symbol)

  -- The value that a purchase leaves in the symbol is within the portfolio's.
  bought-le :
      (p : TraderProposal) (cash : ℤ) (positions : List ActiveAllocationPosition) (quantity : ℕ)
      (binding : BindingConstraint)
      → IsProposal p
      → (0 < quantity
          → IsAffordable i policy p cash positions
              (fallback_decision i policy p (last p) quantity binding))
      → pct_to_notional p.current_position_pct_nav i.nav_inr + quantize_paise (last p * quantity) 1
        ≤ pos_part i.nav_inr
  unfolding fallback_decision
  bought-le p cash positions quantity binding valid within = elim (Bool-cases (ltb 0 quantity)) [
    | inl bought ↦
        let affordable = within (ground arith) in
        let limit = share-le policy.max_position_pct_nav i.nav_inr cap whole in
        omega (arith, affordable.stock)
    | inr idle ↦
        let e : quantity ≡ 0 = ground arith in
        let held = share-le p.current_position_pct_nav i.nav_inr valid.current whole in
        let free : last p * quantity ≡ 0 = rw e (omega arith) in
        let nothing : quantize_paise (last p * quantity) 1 ≡ 0 = rw free quantize_zero in
        omega (arith, held)
  ]

  buy_decision-Returns :
      (p : TraderProposal) (cash : ℤ) (positions : List ActiveAllocationPosition)
      → IsProposal p
      → Returns (fallback_buy_decision i policy p cash positions)
  unfolding fallback_buy_decision fallback_decision
  buy_decision-Returns p cash positions valid =
      let room = fallback_binding i policy p (last p) cash positions in
      let quantity = if last p == 0 then 0 else room.1 / last p in
      let d = fallback_decision i policy p (last p) quantity room.0 in
      let within = binding-IsAffordable i policy p cash positions d refl in
      let most = bought-le p cash positions quantity room.0 valid within in
      checked-Returns d (fallback_candidate_score i p) refl valid.requested
        (target-le _ i.nav_inr most) (score-le i p) (omega arith)

  buy-Returns :
      (s : RunState) (p : TraderProposal) → IsProposal p → Returns (fallback_buy_step i policy s p)
  unfolding fallback_buy_step
  buy-Returns s p valid =
      >>=-Returns (fallback_buy_decision i policy p s.available_cash s.positions) _
        (buy_decision-Returns p s.available_cash s.positions valid) (λ d e. (_, refl))

  abbrev ordered : List TraderProposal
  ordered = sort_by proposal_before i.proposals

  ranked-IsProposal :
      All IsProposal ordered → All IsProposal (map (λ c. c.1) (fallback_ranked_buys i policy))
  unfolding fallback_ranked_buys
  ranked-IsProposal valid =
      let buys = All-keep_if IsProposal (λ p. is_buy p.action) ordered valid in
      let Q : Candidate → Type 0 = λ c. IsProposal c.1 in
      let ranked = map-All Q (λ p. (fallback_candidate_score i p, p)) _ buys in
      map-All IsProposal (λ (c : Candidate). c.1) _ (All-sort_by Q (candidate_before i) _ ranked)

-- A run under the fallback policy returns a result where the portfolio's value is in whole paise,
-- the position limit is a percentage, and the shares of every proposal are percentages.
pub fallback_run-Returns :
    (i : RunAllocationInput) (policy : FallbackAllocationPolicy)
    → IsWhole (pos_part i.nav_inr)
    → policy.max_position_pct_nav ≤ hundred
    → All IsProposal i.proposals
    → (r : RunAllocationResult) × (allocate_with_fallback i policy ≡ ok r)
unfolding allocate_with_fallback fallback_state
fallback_run-Returns i policy whole cap valid =
    let ps = sort_by proposal_before i.proposals in
    let ordered = All-sort_by IsProposal proposal_before i.proposals valid in
    let held = keep_if (λ p. not (is_buy p.action)) ps in
    let valid_held = All-keep_if IsProposal (λ p. not (is_buy p.action)) ps ordered in
    >>=-Returns (fallback_state i policy) _
      (>>=-Returns (run_steps (fallback_lifecycle_step i policy) (start i) held) _
        (steps-Returns (fallback_lifecycle_step i policy) (lifecycle-Returns i policy whole cap)
          (start i) held valid_held)
        (λ s e.
          steps-Returns (fallback_buy_step i policy) (buy-Returns i policy whole cap) s _
            (ranked-IsProposal i policy whole cap ordered)))
      (λ s e. (_, refl))
