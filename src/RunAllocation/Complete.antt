-- ===== src/RunAllocation/Complete.antt =====
-- Every proposal of a run is decided once.
use mathlib.Core.Path.{subst}
use taurus_agent.Base.{
  ◌&&◌, ℕ, ◌+◌, ◌≡◌, refl, sym, ◌∙◌, ap, [], ◌∷◌, ltb, leb, keep_if, map, sort_by, sum_by,
  sum_by-append, sum_by-sort_by, sum_by-partition, sum_by-map, ok, >>=-eq-ok, ok_injective, arith,
  Bool-cases, inl, inr,
}
use taurus_agent.Policy.Schema.{MoneyManagementPolicy}
use taurus_agent.Risk.{TraderProposal, AllocationDecision, AllocationStatus}
use taurus_agent.Risk.Engine.{is_buy}
use taurus_agent.Allocation.Input.{ActiveAllocationInput, HistoryStatistics}
use taurus_agent.Allocation.Decisions.{zero_buy_target}
use taurus_agent.Allocation.Service.{allocate}
use taurus_agent.Allocation.Outcome.{allocate_outcome}
use taurus_agent.RunAllocation.Input.{
  RunAllocationInput, AllocationLedgerEntry, Candidate, active_input_for, proposal_before,
  candidate_before,
}
use taurus_agent.RunAllocation.Status.{
  is_selected, with_run_status, ledger_entry, lifecycle_status, money_management_buy_status,
}
use taurus_agent.RunAllocation.Run.{
  RunState, start, record_outcome, reserve, lifecycle_step, buy_step, run_steps, scored,
  ranked_buys, lifecycle_proposals, run_state, RunAllocationResult, result_of,
  allocate_with_money_management,
}
use taurus_agent.RunAllocation.Steps.{
  input_at, Stepped, buy_step-eq-ok, lifecycle_step-eq-ok, run_steps_total,
}

zero_buy-proposal_id :
    (p : TraderProposal) (d : AllocationDecision)
    → (zero_buy_target p d).proposal_id ≡ p.proposal_id
unfolding zero_buy_target
zero_buy-proposal_id p d = ground arith

allocate-proposal_id :
    (stats : HistoryStatistics) (policy : MoneyManagementPolicy) (i : ActiveAllocationInput)
    {p' : TraderProposal}
    → allocate stats policy i ≡ ok p'
    → p'.proposal_id ≡ i.proposal.proposal_id
allocate-proposal_id stats policy i h = elim (allocate_outcome stats policy i h) [
  | inl kept ↦ ap (λ (p : TraderProposal). p.proposal_id) kept.recorded
  | inr (inl refused) ↦
      ap (λ (p : TraderProposal). p.proposal_id) refused.recorded
      ∙ zero_buy-proposal_id i.proposal refused.decision
  | inr (inr (sleeve, sized)) ↦ ap (λ (p : TraderProposal). p.proposal_id) sized.1.recorded
]

status-proposal_id :
    (p : TraderProposal) (d : AllocationDecision) (status : AllocationStatus)
    → (with_run_status p d status).proposal_id ≡ p.proposal_id
unfolding with_run_status
status-proposal_id p d status = elim (Bool-cases (is_buy d.action)) [
  | inl bought ↦ elim (Bool-cases (is_selected status)) [
    | inl chosen ↦ rw (bought, chosen) refl
    | inr passed ↦ rw (bought, passed) refl
  ]
  | inr other ↦ rw other refl
]

module _ (f : ℕ → ℕ) where
  -- What `f` makes of the proposals in the ledger, and of those returned.
  abbrev entry_sum : RunState → ℕ
  entry_sum s = sum_by (λ e. f e.proposal_id) s.ledger

  abbrev proposal_sum : RunState → ℕ
  proposal_sum s = sum_by (λ (p : TraderProposal). f p.proposal_id) s.proposals

  abbrev weight : TraderProposal → ℕ
  weight p = f p.proposal_id

  -- Both sums grow by the proposal of the step.
  abbrev Grows : RunState → TraderProposal → RunState → Type 0
  Grows s p s' =
      (entry_sum s' ≡ entry_sum s + weight p) × (proposal_sum s' ≡ proposal_sum s + weight p)

  recorded-Grows :
      (i : RunAllocationInput) (p updated : TraderProposal) (d : AllocationDecision)
      (status : AllocationStatus) (s : RunState)
      → updated.proposal_id ≡ p.proposal_id
      → Grows s p (record_outcome i updated d status s)
  unfolding ledger_entry
  recorded-Grows i p updated d status s same =
      let e = ap f same in
      (
        omega (
          arith,
          sum_by-append (λ (x : AllocationLedgerEntry). f x.proposal_id) s.ledger
              (ledger_entry i updated d status ∷ []),
        ),
        omega (
          arith,
          sum_by-append (λ (x : TraderProposal). f x.proposal_id) s.proposals (updated ∷ []),
        ),
      )

  reserve-Grows :
      (p p' : TraderProposal) (d : AllocationDecision) (status : AllocationStatus) (s s' : RunState)
      → Grows s p s'
      → Grows s p (reserve p' d status s')
  unfolding reserve
  reserve-Grows p p' d status s s' h =
      elim (Bool-cases (is_selected status && ltb 0 d.approved_quantity)) [
        | inl bought ↦ rw bought h
        | inr idle ↦ rw idle h
      ]

  module _ (stats : HistoryStatistics) (policy : MoneyManagementPolicy)
      (i : RunAllocationInput) where
    step-proposal_id :
        (s : RunState) (p allocated : TraderProposal) (d : AllocationDecision)
        (status : AllocationStatus)
        → Stepped stats policy i s p allocated d
        → (with_run_status allocated d status).proposal_id ≡ p.proposal_id
    unfolding active_input_for
    step-proposal_id s p allocated d status done =
        status-proposal_id allocated d status
        ∙ allocate-proposal_id stats policy (input_at stats policy i s p) done.returned

    lifecycle-Grows :
        (s : RunState) (p : TraderProposal) (s' : RunState)
        → lifecycle_step stats policy i s p ≡ ok s'
        → Grows s p s'
    lifecycle-Grows s p s' h =
        let (allocated, d, done, e) = lifecycle_step-eq-ok stats policy i s p h in
        let status = lifecycle_status p in
        subst (Grows s p) (sym e) (
          recorded-Grows i p (with_run_status allocated d status) d status s
            (step-proposal_id s p allocated d status done))

    buy-Grows :
        (s : RunState) (p : TraderProposal) (s' : RunState)
        → buy_step stats policy i s p ≡ ok s'
        → Grows s p s'
    buy-Grows s p s' h =
        let (allocated, d, done, e) = buy_step-eq-ok stats policy i s p h in
        let status = money_management_buy_status d in
        let updated = with_run_status allocated d status in
        subst (Grows s p) (sym e) (
          reserve-Grows p p d status s (record_outcome i updated d status s)
            (recorded-Grows i p updated d status s (step-proposal_id s p allocated d status done)))

    -- The two loops go over all proposals.
    loops_cover :
        sum_by weight (lifecycle_proposals stats policy i)
          + sum_by weight (map (λ c. c.1) (ranked_buys stats policy i))
        ≡ sum_by weight i.proposals
    unfolding lifecycle_proposals ranked_buys scored
    loops_cover =
        let sorted = sort_by proposal_before i.proposals in
        let buys = keep_if (λ (p : TraderProposal). is_buy p.action) sorted in
        let candidates = map (scored stats policy i) buys in
        omega (
          arith,
          sum_by-map weight (λ (c : Candidate). c.1) (sort_by (candidate_before i) candidates),
          sum_by-sort_by (candidate_before i) (λ (c : Candidate). weight c.1) candidates,
          sum_by-map (λ (c : Candidate). weight c.1) (scored stats policy i) buys,
          sum_by-partition weight (λ (p : TraderProposal). is_buy p.action) sorted,
          sum_by-sort_by proposal_before weight i.proposals,
        )

    run_state_total :
        (value : RunState → ℕ) {s : RunState}
        → ((s : RunState) (p : TraderProposal) (s' : RunState)
            → lifecycle_step stats policy i s p ≡ ok s'
            → value s' ≡ value s + weight p)
        → ((s : RunState) (p : TraderProposal) (s' : RunState)
            → buy_step stats policy i s p ≡ ok s'
            → value s' ≡ value s + weight p)
        → run_state stats policy i ≡ ok s
        → value s ≡ value (start i) + sum_by weight i.proposals
    unfolding run_state
    run_state_total value l b h =
        let proposals = lifecycle_proposals stats policy i in
        let buys = map (λ (c : Candidate). c.1) (ranked_buys stats policy i) in
        let (middle, first, h) =
          >>=-eq-ok (run_steps (lifecycle_step stats policy i) (start i) proposals) _ h in
        omega (
          arith,
          run_steps_total value weight (lifecycle_step stats policy i) l (start i) proposals first,
          run_steps_total value weight (buy_step stats policy i) b middle buys h,
          loops_cover,
        )

    run_state_sums :
        {s : RunState}
        → run_state stats policy i ≡ ok s
        → (entry_sum s ≡ sum_by weight i.proposals) × (proposal_sum s ≡ sum_by weight i.proposals)
    run_state_sums h =
        let entries =
          run_state_total entry_sum (λ s p s' e. (lifecycle-Grows s p s' e).0)
            (λ s p s' e. (buy-Grows s p s' e).0) h in
        let returned =
          run_state_total proposal_sum (λ s p s' e. (lifecycle-Grows s p s' e).1)
            (λ s p s' e. (buy-Grows s p s' e).1) h in
        (omega (arith, entries), omega (arith, returned))

-- A run that returns decides every proposal once: whatever is added up over the ids of the ledger's
-- entries, or of the returned proposals, adds up to the same over the proposals of the input.
pub run_allocation_complete :
    (stats : HistoryStatistics) (policy : MoneyManagementPolicy) (i : RunAllocationInput)
    (f : ℕ → ℕ) {r : RunAllocationResult}
    → allocate_with_money_management stats policy i ≡ ok r
    → (sum_by (λ (e : AllocationLedgerEntry). f e.proposal_id) r.ledger
        ≡ sum_by (λ (p : TraderProposal). f p.proposal_id) i.proposals)
      × (sum_by (λ (p : TraderProposal). f p.proposal_id) r.proposals
          ≡ sum_by (λ (p : TraderProposal). f p.proposal_id) i.proposals)
unfolding allocate_with_money_management result_of
run_allocation_complete stats policy i f h =
    let (s, ran, h) = >>=-eq-ok (run_state stats policy i) _ h in
    let (entries, returned) = run_state_sums f stats policy i ran in
    let e = ok_injective h in
    (
      omega (
        arith,
        ap
            (λ (r : RunAllocationResult).
              sum_by (λ (x : AllocationLedgerEntry). f x.proposal_id) r.ledger)
            e,
        sum_by-sort_by (λ (a b : AllocationLedgerEntry). leb a.symbol b.symbol)
            (λ (x : AllocationLedgerEntry). f x.proposal_id) s.ledger,
      ),
      omega (
        arith,
        ap
            (λ (r : RunAllocationResult).
              sum_by (λ (x : TraderProposal). f x.proposal_id) r.proposals)
            e,
        sum_by-sort_by proposal_before (λ (x : TraderProposal). f x.proposal_id) s.proposals,
      ),
    )
