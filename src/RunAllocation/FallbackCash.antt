-- ===== src/RunAllocation/FallbackCash.antt =====
-- What the purchases of a run under the fallback policy spend together.
use mathlib.Core.Path.{subst}
use native.Mathlib.Nat.{mul-le-mul}
use taurus_agent.Base.{
  ◌+◌, ◌*◌, ◌≤◌, ◌<◌, ◌≡◌, ◌⊎◌, refl, sym, ◌∙◌, ap, not, List, ltb, leb, keep_if, sort_by,
  if◌then◌else◌, sum_by, sum_by-sort_by, ok, >>=-eq-ok, ok_injective, arith, Bool-cases, inl, inr,
}
use taurus_agent.Base.Int.{ℤ, pos_part, neg_part}
use taurus_agent.Money.Paise.{IsWhole, IsWhole-mul}
use taurus_agent.Risk.{TraderProposal, AllocationDecision}
use taurus_agent.Risk.Engine.{is_buy}
use taurus_agent.Allocation.Input.{ActiveAllocationPosition}
use taurus_agent.Allocation.Prices.{latest_close}
use taurus_agent.RunAllocation.Input.{
  FallbackAllocationPolicy, RunAllocationInput, AllocationLedgerEntry, proposal_before,
}
use taurus_agent.RunAllocation.Pending.{cash_after}
use taurus_agent.RunAllocation.Status.{
  is_selected, is_requested, is_fallback_resource, fallback_buy_status, lifecycle_status,
  fallback_updated_proposal,
}
use taurus_agent.RunAllocation.Run.{
  RunState, start, record_outcome, run_steps, RunAllocationResult, result_of,
}
use taurus_agent.RunAllocation.Fallback.{
  fallback_buy_decision, fallback_lifecycle_decision, fallback_lifecycle_step, fallback_reserve,
  fallback_buy_step, fallback_state, allocate_with_fallback,
}
use taurus_agent.RunAllocation.Settings.{
  IsAffordable, price-IsWhole, fallback_purchase-IsAffordable,
}
use taurus_agent.RunAllocation.Steps.{lifecycle-unselected, run_steps_keep}
use taurus_agent.RunAllocation.Spending.{
  spend, spent, IsAccounted, purchase-IsSpending, idle-IsAccounted, spent-record_outcome,
}

fallback-selected :
    (d : AllocationDecision) → is_selected (fallback_buy_status d) ≡ ltb 0 d.approved_quantity
unfolding fallback_buy_status
fallback-selected d = elim (Bool-cases (ltb 0 d.approved_quantity)) [
  | inl bought ↦ elim (Bool-cases (is_requested d.binding_constraint)) [
    | inl whole ↦ rw (bought, whole) refl
    | inr cut ↦ rw (bought, cut) refl
  ]
  | inr idle ↦ elim (Bool-cases (is_fallback_resource d.binding_constraint)) [
    | inl scarce ↦ rw (idle, scarce) refl
    | inr refused ↦ rw (idle, refused) refl
  ]
]

-- What an affordable purchase costs.
affordable_cost :
    (i : RunAllocationInput) (policy : FallbackAllocationPolicy) (p : TraderProposal) (cash : ℤ)
    (positions : List ActiveAllocationPosition) (d : AllocationDecision)
    → 0 < d.approved_quantity
    → IsAffordable i policy p cash positions d
    → IsWhole d.approved_notional_inr × (0 < d.approved_notional_inr)
affordable_cost i policy p cash positions d positive within =
    let latest = latest_close (i.histories_by_symbol p.symbol) in
    let whole = IsWhole-mul latest d.approved_quantity (price-IsWhole i policy p cash positions) in
    let least : 1 * 1 ≤ latest * d.approved_quantity = mul-le-mul within.priced positive in
    (subst IsWhole (sym within.notional) whole, omega (arith, within.notional))

module _ (i : RunAllocationInput) (policy : FallbackAllocationPolicy) where
  abbrev Accounted : RunState → Type 0
  Accounted = IsAccounted i.available_cash_inr 0

  lifecycle-Accounted :
      (s : RunState) (p : TraderProposal) (s' : RunState)
      → fallback_lifecycle_step i policy s p ≡ ok s'
      → Accounted s
      → Accounted s'
  unfolding fallback_lifecycle_step
  lifecycle-Accounted s p s' h k =
      let status = lifecycle_status p in
      let (d, made, h) = >>=-eq-ok (fallback_lifecycle_decision i policy p status) _ h in
      let e = sym (ok_injective h) in
      let nothing = spent-record_outcome i (fallback_updated_proposal p d status) d status s in
      idle-IsAccounted i.available_cash_inr 0 s s' (ap (λ (t : RunState). t.available_cash) e)
        (ap spent e ∙ (rw (lifecycle-unselected p) at nothing) ∙ omega arith) k

  -- A purchase with a quantity takes its notional, and one without leaves the cash.
  reserved-Accounted :
      (s after s' : RunState) (p : TraderProposal) (d : AllocationDecision)
      → after.available_cash ≡ s.available_cash
      → spent after
        ≡ spent s + (if is_selected (fallback_buy_status d) then d.approved_notional_inr else 0)
      → fallback_buy_decision i policy p s.available_cash s.positions ≡ ok d
      → s' ≡ fallback_reserve i policy p d (fallback_buy_status d) after
      → Accounted s
      → Accounted s'
  unfolding fallback_reserve
  reserved-Accounted s after s' p d cash paid made e k =
      elim (Bool-cases (ltb 0 d.approved_quantity)) [
        | inl bought ↦
            let chosen = fallback-selected d ∙ bought in
            let within =
              fallback_purchase-IsAffordable i policy p s.available_cash s.positions made
                (ground arith) in
            let (whole, some_cost) =
              affordable_cost i policy p s.available_cash s.positions d (ground arith) within in
            let e' = rw (chosen, bought) at e in
            let paid' = rw chosen at paid in
            inr (
              purchase-IsSpending i.available_cash_inr 0 s s' d.approved_notional_inr whole
                (0, refl) some_cost (omega (arith, within.funded))
                (ap (λ (t : RunState). t.available_cash) e'
                  ∙ ap (λ (c : ℤ). cash_after c d.approved_notional_inr) cash)
                (ap spent e' ∙ paid') k)
        | inr idle ↦
            let passed = fallback-selected d ∙ idle in
            let e' = rw passed at e in
            let paid' = rw passed at paid in
            idle-IsAccounted i.available_cash_inr 0 s s'
              (ap (λ (t : RunState). t.available_cash) e' ∙ cash)
              (ap spent e' ∙ paid' ∙ omega arith) k
      ]

  buy-Accounted :
      (s : RunState) (p : TraderProposal) (s' : RunState)
      → fallback_buy_step i policy s p ≡ ok s'
      → Accounted s
      → Accounted s'
  unfolding fallback_buy_step
  buy-Accounted s p s' h k =
      let (d, made, h) =
        >>=-eq-ok (fallback_buy_decision i policy p s.available_cash s.positions) _ h in
      let status = fallback_buy_status d in
      let updated = fallback_updated_proposal p d status in
      reserved-Accounted s (record_outcome i updated d status s) s' p d refl
        (spent-record_outcome i updated d status s) made (sym (ok_injective h)) k

  fallback_state-Accounted : {s : RunState} → fallback_state i policy ≡ ok s → Accounted s
  unfolding fallback_state
  fallback_state-Accounted h =
      let held = keep_if (λ p. not (is_buy p.action)) (sort_by proposal_before i.proposals) in
      let (middle, first, h) =
        >>=-eq-ok (run_steps (fallback_lifecycle_step i policy) (start i) held) _ h in
      run_steps_keep Accounted (fallback_buy_step i policy) buy-Accounted middle _ h (
        run_steps_keep Accounted (fallback_lifecycle_step i policy) lifecycle-Accounted (start i)
          held first (inl (refl, refl)))

-- The purchases that a run selects under the fallback policy cost nothing, or together, at the last
-- closes, they cost no more than the cash that was available before the run, to half a paisa.
pub fallback_run_within_cash :
    (i : RunAllocationInput) (policy : FallbackAllocationPolicy) {r : RunAllocationResult}
    → allocate_with_fallback i policy ≡ ok r
    → (sum_by spend r.ledger ≡ 0)
      ⊎ ((neg_part i.available_cash_inr ≡ 0)
          × (sum_by spend r.ledger ≤ pos_part i.available_cash_inr + 50))
unfolding allocate_with_fallback result_of
fallback_run_within_cash i policy h =
    let (s, ran, h) = >>=-eq-ok (fallback_state i policy) _ h in
    let ledger = ap (λ (r : RunAllocationResult). sum_by spend r.ledger) (ok_injective h) in
    let same =
      sum_by-sort_by (λ (a b : AllocationLedgerEntry). leb a.symbol b.symbol) spend s.ledger in
    elim (fallback_state-Accounted i policy ran) [
      | inl (nothing, _) ↦ inl (omega arith)
      | inr spending ↦ inr (spending.rich, omega (arith, spending.buffer))
    ]
