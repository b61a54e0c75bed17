-- ===== src/Allocation/Outcome.antt =====
-- What `PortfolioAllocationService.allocate` may return.
use taurus_agent.Base.{
  ℕ, ◌≡◌, ◌⊎◌, refl, true, false, ◌||◌, Option, none, some, ◌==◌, ok, Bool-cases, if_taken,
  if_skipped, inl, inr,
}
use taurus_agent.Policy.Schema.{SleevePolicy, MoneyManagementPolicy}
use taurus_agent.Risk.{
  ScoreBand, TraderProposal, lifecycle_action_not_new_risk, invalid_stop_loss_or_price,
  candidate_score_below_entry_floor,
}
use taurus_agent.Risk.Engine.{is_buy}
use taurus_agent.Allocation.Input.{ActiveAllocationInput, HistoryStatistics}
use taurus_agent.Allocation.Governors.{GovernorEvaluation, evaluate_governors}
use taurus_agent.Allocation.Decisions.{Sizing, mapped_sleeve, allocatable_sleeve}
use taurus_agent.Allocation.Service.{
  allocate_in, is_reject, priced_buy, sizing_of, or_freeze, allocate_buy, unmapped_reason,
  or_unmapped, allocate,
}
use taurus_agent.Allocation.Branches.{
  IsKept, IsRefused, IsSized, keep_proposal-IsKept, rejected_buy-IsRefused, allocate_sized-outcome,
}

-- The branches after the freeze.
priced_buy-outcome :
    (i : ActiveAllocationInput) (policy : MoneyManagementPolicy) (s : Sizing) {p' : TraderProposal}
    → is_buy i.proposal.action ≡ true
    → s.governor.brake.frozen ≡ false
    → priced_buy i policy s ≡ ok p'
    → IsRefused i p' ⊎ IsSized i policy s p'
unfolding priced_buy
priced_buy-outcome i policy s asked released h =
    elim (Bool-cases (s.latest_price == 0 || s.risk == 0)) [
      | inl unpriced ↦ inl (
          rejected_buy-IsRefused i s.sleeve s.governor none ScoreBand.invalid_stop_loss none
            invalid_stop_loss_or_price asked
            (if_taken (s.latest_price == 0 || s.risk == 0) _ _ unpriced h))
      | inr priced ↦
          let h = if_skipped (s.latest_price == 0 || s.risk == 0) _ _ priced h in
          elim (Bool-cases (is_reject s.band)) [
            | inl low ↦ inl (
                rejected_buy-IsRefused i s.sleeve s.governor (some s.score) s.band
                  (some s.volatility) candidate_score_below_entry_floor asked
                  (if_taken (is_reject s.band) _ _ low h))
            | inr scored ↦
                allocate_sized-outcome i policy s asked released priced scored
                  (if_skipped (is_reject s.band) _ _ scored h)
          ]
    ]

-- A purchase in a sleeve that takes new risk is refused or sized.
sizing-governor :
    (stats : HistoryStatistics) (i : ActiveAllocationInput) (policy : MoneyManagementPolicy)
    (sleeve : SleevePolicy) (governor : GovernorEvaluation)
    → (sizing_of stats i policy sleeve governor).governor ≡ governor
unfolding sizing_of
sizing-governor stats i policy sleeve governor = refl

allocate_buy-outcome :
    (stats : HistoryStatistics) (i : ActiveAllocationInput) (policy : MoneyManagementPolicy)
    (sleeve : SleevePolicy) {p' : TraderProposal}
    → is_buy i.proposal.action ≡ true
    → allocate_buy stats i policy sleeve ≡ ok p'
    → IsRefused i p'
      ⊎ IsSized i policy (sizing_of stats i policy sleeve (evaluate_governors i sleeve policy)) p'
unfolding allocate_buy
allocate_buy-outcome stats i policy sleeve asked h =
    let governor = evaluate_governors i sleeve policy in
    let s = sizing_of stats i policy sleeve governor in
    elim (Bool-cases governor.brake.frozen) [
      | inl frozen ↦ inl (
          rejected_buy-IsRefused i sleeve governor none ScoreBand.governor_freeze none
            (or_freeze governor.brake.binding_constraint) asked
            (if_taken governor.brake.frozen _ _ frozen h))
      | inr released ↦
          priced_buy-outcome i policy s asked
            (rw (sizing-governor stats i policy sleeve governor) released)
            (if_skipped governor.brake.frozen _ _ released h)
    ]

-- The sleeve in which the allocation takes new risk, for the sizing that follows.
abbrev pub IsSizedIn :
    HistoryStatistics
    → MoneyManagementPolicy
    → ActiveAllocationInput
    → SleevePolicy
    → TraderProposal
    → Type 0
IsSizedIn stats policy i sleeve p' =
    (allocatable_sleeve policy (mapped_sleeve policy i.strategy_name) ≡ some sleeve)
    × IsSized i policy (sizing_of stats i policy sleeve (evaluate_governors i sleeve policy)) p'

in-outcome :
    (stats : HistoryStatistics) (policy : MoneyManagementPolicy) (i : ActiveAllocationInput)
    (mapped : Option ℕ) (found : Option SleevePolicy) {p' : TraderProposal}
    → allocatable_sleeve policy (mapped_sleeve policy i.strategy_name) ≡ found
    → allocate_in stats policy i mapped found ≡ ok p'
    → IsKept i p'
      ⊎ (IsRefused i p' ⊎ ((sleeve : SleevePolicy) × IsSizedIn stats policy i sleeve p'))
unfolding allocate_in
in-outcome stats policy i mapped none e h =
    inl (keep_proposal-IsKept i (or_unmapped mapped) (unmapped_reason mapped) h)
in-outcome stats policy i mapped (some sleeve) e h = elim (Bool-cases (is_buy i.proposal.action)) [
  | inl asked ↦
      elim (allocate_buy-outcome stats i policy sleeve asked
        (if_taken (is_buy i.proposal.action) _ _ asked h)) [
          | inl refused ↦ inr (inl refused)
          | inr sized ↦ inr (inr (sleeve, (e, sized)))
        ]
  | inr other ↦ inl (
      keep_proposal-IsKept i sleeve.sleeve_id lifecycle_action_not_new_risk
        (if_skipped (is_buy i.proposal.action) _ _ other h))
]

-- An allocation that returns leaves the proposal as it is, with nothing allocated; or refuses a
-- purchase, which becomes a hold of the current position or no trade; or sizes a purchase in a
-- sleeve that takes new risk, by a positive quantity whose cost is within every cap.
pub allocate_outcome :
    (stats : HistoryStatistics) (policy : MoneyManagementPolicy) (i : ActiveAllocationInput)
    {p' : TraderProposal}
    → allocate stats policy i ≡ ok p'
    → IsKept i p'
      ⊎ (IsRefused i p' ⊎ ((sleeve : SleevePolicy) × IsSizedIn stats policy i sleeve p'))
unfolding allocate
allocate_outcome stats policy i h =
    let mapped = mapped_sleeve policy i.strategy_name in
    in-outcome stats policy i mapped (allocatable_sleeve policy mapped) refl h
