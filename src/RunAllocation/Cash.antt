-- ===== src/RunAllocation/Cash.antt =====
-- What the purchases of a run under the money-management policy spend together.
use mathlib.Core.Path.{subst}
use native.Mathlib.Nat.{mul-le-mul}
use taurus_agent.Base.{
  ℕ, ◌+◌, ◌*◌, ◌≤◌, ◌<◌, ◌≡◌, ◌⊎◌, refl, sym, ◌∙◌, ap, true, false, ◌&&◌, ltb, ◌==◌, if◌then◌else◌,
  sum_by, sum_by-sort_by, leb, ok, >>=-eq-ok, ok_injective, arith, Bool-cases, inl, inr,
}
use taurus_agent.Base.Int.{pos_part, neg_part}
use taurus_agent.Money.Paise.{IsWhole, IsWhole-mul}
use taurus_agent.Policy.Schema.{MoneyManagementPolicy}
use taurus_agent.Policy.Sections.{hundred}
use taurus_agent.Risk.{TraderProposal, AllocationDecision, AllocationStatus}
use taurus_agent.Allocation.Input.{ActiveAllocationInput, HistoryStatistics}
use taurus_agent.Allocation.Prices.{pct_to_notional, latest_close, buffered_price}
use taurus_agent.Allocation.Rooms.{cash_buffer_target_pct}
use taurus_agent.Allocation.Bounds.{share-IsWhole, latest-IsWhole}
use taurus_agent.Allocation.Limits.{IsWithinLimits}
use taurus_agent.RunAllocation.Input.{RunAllocationInput, AllocationLedgerEntry, active_input_for}
use taurus_agent.RunAllocation.Pending.{cash_after}
use taurus_agent.RunAllocation.Status.{
  is_approved, with_run_status, is_selected, money_management_buy_status, lifecycle_status,
}
use taurus_agent.RunAllocation.Run.{
  RunState, start, record_outcome, reserve, lifecycle_step, buy_step, run_steps, run_state,
  lifecycle_proposals, RunAllocationResult, result_of, allocate_with_money_management,
}
use taurus_agent.RunAllocation.Steps.{
  input_at, buy-selected, lifecycle-unselected, buy_step-eq-ok, lifecycle_step-eq-ok,
  run_steps_keep,
}
use taurus_agent.RunAllocation.Spending.{
  spend, spent, IsAccounted, purchase-IsSpending, idle-IsAccounted, spent-record_outcome,
}

spent-reserve :
    (p : TraderProposal) (d : AllocationDecision) (status : AllocationStatus) (s : RunState)
    → spent (reserve p d status s) ≡ spent s
unfolding reserve
spent-reserve p d status s = elim (Bool-cases (is_selected status && ltb 0 d.approved_quantity)) [
  | inl bought ↦ rw bought refl
  | inr idle ↦ rw idle refl
]

reserve_cash :
    (p : TraderProposal) (d : AllocationDecision) (status : AllocationStatus) (s : RunState)
    → (reserve p d status s).available_cash ≡ (
        if is_selected status && ltb 0 d.approved_quantity
        then cash_after s.available_cash d.approved_notional_inr
        else s.available_cash)
unfolding reserve
reserve_cash p d status s = elim (Bool-cases (is_selected status && ltb 0 d.approved_quantity)) [
  | inl bought ↦ rw bought refl
  | inr idle ↦ rw idle refl
]

-- Without a buffer on the price a purchase costs its notional.
plain_price : (latest : ℕ) → buffered_price latest 0 ≡ latest
unfolding buffered_price
plain_price latest = elim (Bool-cases (latest == 0)) [ inl e ↦ rw e refl | inr e ↦ rw e refl ]

-- What a purchase within the limits costs, where prices carry no buffer.
purchase_cost :
    (policy : MoneyManagementPolicy) (j : ActiveAllocationInput) (d : AllocationDecision)
    (buffer_pct : ℕ)
    → cash_buffer_target_pct policy ≡ ok buffer_pct
    → j.buy_price_buffer_pct ≡ 0
    → 0 < d.approved_quantity
    → IsWithinLimits policy j d
    → IsWhole d.approved_notional_inr
      × (0 < d.approved_notional_inr)
      × (pct_to_notional buffer_pct j.nav_inr
            + d.approved_notional_inr
            + neg_part j.available_cash_inr
          ≤ pos_part j.available_cash_inr + 50)
purchase_cost policy j d buffer_pct buffer plain positive limits =
    let latest = latest_close j.history in
    let whole = IsWhole-mul latest d.approved_quantity (latest-IsWhole j) in
    let least : 1 * 1 ≤ latest * d.approved_quantity = mul-le-mul limits.priced positive in
    let pct = ok_injective (sym buffer ∙ limits.buffer) in
    let kept = ap (λ (t : ℕ). pct_to_notional t j.nav_inr) pct in
    let price = ap (buffered_price latest) plain ∙ plain_price latest in
    let cost = ap (λ (t : ℕ). d.approved_quantity * t) price in
    (
      subst IsWhole (sym limits.notional) whole,
      omega (arith, limits.notional),
      omega (arith, limits.notional, limits.cash),
    )

module _ (stats : HistoryStatistics) (policy : MoneyManagementPolicy) (i : RunAllocationInput)
    (buffer_pct : ℕ) (buffer : cash_buffer_target_pct policy ≡ ok buffer_pct) where
  abbrev kept_cash : ℕ
  kept_cash = pct_to_notional buffer_pct i.nav_inr

  abbrev Accounted : RunState → Type 0
  Accounted = IsAccounted i.available_cash_inr kept_cash

  lifecycle-Accounted :
      (s : RunState) (p : TraderProposal) (s' : RunState)
      → lifecycle_step stats policy i s p ≡ ok s'
      → Accounted s
      → Accounted s'
  lifecycle-Accounted s p s' h k =
      let (allocated, d, done, e) = lifecycle_step-eq-ok stats policy i s p h in
      let status = lifecycle_status p in
      let nothing = spent-record_outcome i (with_run_status allocated d status) d status s in
      idle-IsAccounted i.available_cash_inr kept_cash s s'
        (ap (λ (t : RunState). t.available_cash) e)
        (ap spent e ∙ (rw (lifecycle-unselected p) at nothing) ∙ omega arith) k

  -- The purchase of a step, with what it costs.
  buy_effect :
      (s : RunState) (p allocated : TraderProposal) (d : AllocationDecision) {s' : RunState}
      → s'
        ≡ reserve p d (money_management_buy_status d) (
            record_outcome i
              (with_run_status allocated d (money_management_buy_status d))
              d
              (money_management_buy_status d)
              s)
      → ((s'.available_cash ≡ s.available_cash) × (spent s' ≡ spent s))
        ⊎ ((0 < d.approved_quantity)
            × (s'.available_cash ≡ cash_after s.available_cash d.approved_notional_inr)
            × (spent s' ≡ spent s + d.approved_notional_inr))
  buy_effect s p allocated d e =
      let status = money_management_buy_status d in
      let updated = with_run_status allocated d status in
      let after = record_outcome i updated d status s in
      let cash = ap (λ (t : RunState). t.available_cash) e ∙ reserve_cash p d status after in
      let paid =
        ap spent e ∙ spent-reserve p d status after ∙ spent-record_outcome i updated d status s in
      elim (Bool-cases (is_approved d.status && ltb 0 d.approved_quantity)) [
        | inl bought ↦
            let chosen = buy-selected d ∙ bought in
            let some_left : ltb 0 d.approved_quantity ≡ true = ground arith in
            let both : (is_selected status && ltb 0 d.approved_quantity) ≡ true =
              rw (chosen, some_left) refl in
            inr (ground arith, rw both at cash, rw chosen at paid)
        | inr idle ↦
            let passed = buy-selected d ∙ idle in
            let both : (is_selected status && ltb 0 d.approved_quantity) ≡ false = rw passed refl in
            inl (rw both at cash, (rw passed at paid) ∙ omega arith)
      ]

  buy-Accounted :
      (s : RunState) (p : TraderProposal) (s' : RunState)
      → buy_step stats policy i s p ≡ ok s'
      → Accounted s
      → Accounted s'
  unfolding active_input_for
  buy-Accounted s p s' h k =
      let (allocated, d, done, e) = buy_step-eq-ok stats policy i s p h in
      elim (buy_effect s p allocated d e) [
        | inl (cash, paid) ↦ idle-IsAccounted i.available_cash_inr kept_cash s s' cash paid k
        | inr (positive, cash, paid) ↦
            let (whole, some_cost, room) =
              purchase_cost policy (input_at stats policy i s p) d buffer_pct buffer refl positive
                (done.within positive) in
            inr (
              purchase-IsSpending i.available_cash_inr kept_cash s s' d.approved_notional_inr whole
                (share-IsWhole buffer_pct hundred i.nav_inr) some_cost room cash paid k)
      ]

  run_state-Accounted : {s : RunState} → run_state stats policy i ≡ ok s → Accounted s
  unfolding run_state
  run_state-Accounted h =
      let proposals = lifecycle_proposals stats policy i in
      let (middle, first, h) =
        >>=-eq-ok (run_steps (lifecycle_step stats policy i) (start i) proposals) _ h in
      run_steps_keep Accounted (buy_step stats policy i) buy-Accounted middle _ h (
        run_steps_keep Accounted (lifecycle_step stats policy i) lifecycle-Accounted (start i)
          proposals first (inl (refl, refl)))

-- The purchases that a run selects cost nothing, or together, at the last closes, they leave the
-- policy's cash buffer of the cash that was available before the run, to half a paisa.
pub run_allocation_leaves_buffer :
    (stats : HistoryStatistics) (policy : MoneyManagementPolicy) (i : RunAllocationInput)
    (buffer_pct : ℕ) {r : RunAllocationResult}
    → cash_buffer_target_pct policy ≡ ok buffer_pct
    → allocate_with_money_management stats policy i ≡ ok r
    → (sum_by spend r.ledger ≡ 0)
      ⊎ ((neg_part i.available_cash_inr ≡ 0)
          × (pct_to_notional buffer_pct i.nav_inr + sum_by spend r.ledger
              ≤ pos_part i.available_cash_inr + 50))
unfolding allocate_with_money_management result_of
run_allocation_leaves_buffer stats policy i buffer_pct buffer h =
    let (s, ran, h) = >>=-eq-ok (run_state stats policy i) _ h in
    let ledger = ap (λ (r : RunAllocationResult). sum_by spend r.ledger) (ok_injective h) in
    let same =
      sum_by-sort_by (λ (a b : AllocationLedgerEntry). leb a.symbol b.symbol) spend s.ledger in
    elim (run_state-Accounted stats policy i buffer_pct buffer ran) [
      | inl (nothing, _) ↦ inl (omega arith)
      | inr spending ↦ inr (spending.rich, omega (arith, spending.buffer))
    ]
