-- ===== src/RunAllocation/Steps.antt =====
-- Invariants of the two loops of a run.
use mathlib.Core.Path.{subst}
use taurus_agent.Base.{
  ℕ, ◌+◌, ◌<◌, ◌≡◌, refl, sym, ap, sum_by, false, ◌&&◌, List, [], ◌∷◌, Option, none, some, ltb,
  Result, ok, >>=-eq-ok, ok_injective, or_raise, decision_required, arith, Bool-cases, inl, inr,
}
use taurus_agent.Policy.Schema.{MoneyManagementPolicy}
use taurus_agent.Risk.{TraderProposal, AllocationDecision}
use taurus_agent.Allocation.Input.{ActiveAllocationInput, HistoryStatistics}
use taurus_agent.Allocation.Service.{allocate}
use taurus_agent.Allocation.Limits.{IsWithinLimits, allocation-IsWithinLimits}
use taurus_agent.RunAllocation.Input.{RunAllocationInput, active_input_for}
use taurus_agent.RunAllocation.Status.{
  is_approved, is_selected, is_requested, is_resource, money_management_buy_status,
  lifecycle_status, require_decision, with_run_status,
}
use taurus_agent.RunAllocation.Run.{
  RunState, record_outcome, reserve, lifecycle_step, buy_step, run_steps,
}

pub buy-selected :
    (d : AllocationDecision)
    → is_selected (money_management_buy_status d)
      ≡ (is_approved d.status && ltb 0 d.approved_quantity)
unfolding money_management_buy_status
buy-selected d = elim (Bool-cases (is_approved d.status && ltb 0 d.approved_quantity)) [
  | inl bought ↦ elim (Bool-cases (is_requested d.binding_constraint)) [
    | inl whole ↦ rw (bought, whole) refl
    | inr cut ↦ rw (bought, cut) refl
  ]
  | inr idle ↦ elim (Bool-cases (is_resource d.binding_constraint)) [
    | inl scarce ↦ rw (idle, scarce) refl
    | inr refused ↦ rw (idle, refused) refl
  ]
]

pub lifecycle-unselected : (p : TraderProposal) → is_selected (lifecycle_status p) ≡ false
unfolding lifecycle_status
lifecycle-unselected p = elim (Bool-cases (ltb 0 p.current_position_quantity)) [
  | inl held ↦ rw held refl
  | inr new ↦ rw new refl
]

required-eq-ok :
    (p : TraderProposal) {d : AllocationDecision}
    → require_decision p ≡ ok d
    → p.allocation_decision ≡ some d
unfolding require_decision
required-eq-ok p h = raised p.allocation_decision h
  where
    raised :
        (o : Option AllocationDecision) {d : AllocationDecision}
        → or_raise o decision_required ≡ ok d
        → o ≡ some d
    raised none h = cc
    raised (some d') h = cc

module _ (stats : HistoryStatistics) (policy : MoneyManagementPolicy) (i : RunAllocationInput) where
  -- The input of the allocation that a step makes.
  abbrev pub input_at : RunState → TraderProposal → ActiveAllocationInput
  input_at s p = active_input_for i p s.available_cash s.positions s.sleeves

  -- What a step did: it recorded a decision of the allocation, which is within the limits where it
  -- buys.
  pub record Stepped (s : RunState) (p allocated : TraderProposal) (d : AllocationDecision)
      : Type 0 where
    pub returned : allocate stats policy (input_at s p) ≡ ok allocated
    pub within : 0 < d.approved_quantity → IsWithinLimits policy (input_at s p) d

  step-Stepped :
      (s : RunState) (p allocated : TraderProposal) (d : AllocationDecision)
      → allocate stats policy (input_at s p) ≡ ok allocated
      → require_decision allocated ≡ ok d
      → Stepped s p allocated d
  step-Stepped s p allocated d returned required = record {
    returned = returned;
    within =
        allocation-IsWithinLimits stats policy (input_at s p) returned
          (required-eq-ok allocated required);
  }

  pub buy_step-eq-ok :
      (s : RunState) (p : TraderProposal) {s' : RunState}
      → buy_step stats policy i s p ≡ ok s'
      → (allocated : TraderProposal) × (d : AllocationDecision) × Stepped s p allocated d
        × (s'
            ≡ reserve p d (money_management_buy_status d) (
                record_outcome i
                  (with_run_status allocated d (money_management_buy_status d))
                  d
                  (money_management_buy_status d)
                  s))
  unfolding buy_step
  buy_step-eq-ok s p h =
      let (allocated, returned, h) = >>=-eq-ok (allocate stats policy (input_at s p)) _ h in
      let (d, required, h) = >>=-eq-ok (require_decision allocated) _ h in
      (allocated, d, step-Stepped s p allocated d returned required, sym (ok_injective h))

  pub lifecycle_step-eq-ok :
      (s : RunState) (p : TraderProposal) {s' : RunState}
      → lifecycle_step stats policy i s p ≡ ok s'
      → (allocated : TraderProposal) × (d : AllocationDecision) × Stepped s p allocated d
        × (s'
            ≡ record_outcome i
                (with_run_status allocated d (lifecycle_status p))
                d
                (lifecycle_status p)
                s)
  unfolding lifecycle_step
  lifecycle_step-eq-ok s p h =
      let (allocated, returned, h) = >>=-eq-ok (allocate stats policy (input_at s p)) _ h in
      let (d, required, h) = >>=-eq-ok (require_decision allocated) _ h in
      (allocated, d, step-Stepped s p allocated d returned required, sym (ok_injective h))

-- A loop keeps what each of its steps keeps.
pub run_steps_keep {ℓ} :
    (P : RunState → Type ℓ) (step : RunState → TraderProposal → Result RunState)
    → ((s : RunState) (p : TraderProposal) (s' : RunState) → step s p ≡ ok s' → P s → P s')
    → (s : RunState) (ps : List TraderProposal) {s' : RunState} → run_steps step s ps ≡ ok s'
    → P s
    → P s'
unfolding run_steps
run_steps_keep P step keep s [] h k = subst P (ok_injective h) k
run_steps_keep P step keep s (p ∷ ps) h k =
    let (middle, first, h) = >>=-eq-ok (step s p) _ h in
    run_steps_keep P step keep middle ps h (keep s p middle first k)

-- A loop adds up what each of its steps adds.
pub run_steps_total :
    (value : RunState → ℕ) (cost : TraderProposal → ℕ)
    (step : RunState → TraderProposal → Result RunState)
    → ((s : RunState) (p : TraderProposal) (s' : RunState)
        → step s p ≡ ok s'
        → value s' ≡ value s + cost p)
    → (s : RunState) (ps : List TraderProposal) {s' : RunState} → run_steps step s ps ≡ ok s'
    → value s' ≡ value s + sum_by cost ps
unfolding run_steps
run_steps_total value cost step adds s [] h = omega (arith, ap value (ok_injective h))
run_steps_total value cost step adds s (p ∷ ps) h =
    let (middle, first, h) = >>=-eq-ok (step s p) _ h in
    omega (arith, adds s p middle first, run_steps_total value cost step adds middle ps h)
