-- ===== src/Allocation/Branches.antt =====
-- The kinds of proposals that an allocation may return, and its branches up to the sizing.
use taurus_agent.Base.{
  ℕ, ◌*◌, ◌/◌, ◌<◌, ◌≡◌, ◌⊎◌, refl, sym, true, false, not, ◌||◌, ◌∷◌, Option, ◌==◌, if◌then◌else◌,
  Result, ok, ◌>>=◌, >>=-eq-ok, raise_if-eq-ok, ok_injective, allocation_out_of_range, arith,
  Bool-cases, inl, inr,
}
use taurus_agent.Money.Paise.{quantize_whole}
use taurus_agent.Policy.Schema.{SleevePolicy, MoneyManagementPolicy}
use taurus_agent.Risk.{
  AllocationStatus, ScoreBand, BindingConstraint, AllocationDecision, TraderProposal,
  requested_notional,
}
use taurus_agent.Risk.Engine.{is_buy}
use taurus_agent.Allocation.Input.{ActiveAllocationInput}
use taurus_agent.Allocation.Governors.{GovernorEvaluation}
use taurus_agent.Allocation.Rooms.{least_room, cash_buffer_target_pct}
use taurus_agent.Allocation.Caps.{FitsCaps, quantity-FitsCaps}
use taurus_agent.Allocation.Decisions.{
  Sizing, decision_in_range, checked_decision, with_decision, zero_buy_target, unchanged_decision,
  rejected_decision, rejected_buy,
}
use taurus_agent.Allocation.Service.{
  caps_of, sized_decision, sized_buy, allocate_sized, is_reject, keep_proposal,
}

-- The proposal stands as it is, and the decision says so.
pub record IsKept (i : ActiveAllocationInput) (p' : TraderProposal) : Type 0 where
  pub decision : AllocationDecision
  pub recorded : p' ≡ with_decision i.proposal decision
  pub unchanged : decision.status ≡ AllocationStatus.unchanged
  pub nothing : decision.approved_quantity ≡ 0

-- The purchase is refused: the position is held as it is, or not opened.
pub record IsRefused (i : ActiveAllocationInput) (p' : TraderProposal) : Type 0 where
  pub decision : AllocationDecision
  pub asked : is_buy i.proposal.action ≡ true
  pub recorded : p' ≡ zero_buy_target i.proposal decision
  pub status : decision.status ≡ AllocationStatus.rejected
  pub nothing : decision.approved_quantity ≡ 0
  pub no_notional : decision.approved_notional_inr ≡ 0

-- The purchase is sized: no freeze holds, prices and score suffice, and the cost of the quantity is
-- within every cap.
pub record IsSized (i : ActiveAllocationInput) (policy : MoneyManagementPolicy) (s : Sizing)
    (p' : TraderProposal) : Type 0 where
  pub buffer_pct : ℕ
  pub buffer : cash_buffer_target_pct policy ≡ ok buffer_pct
  pub binding : BindingConstraint
  pub quantity : ℕ
  pub positive : 0 < quantity
  pub asked : is_buy i.proposal.action ≡ true
  pub released : s.governor.brake.frozen ≡ false
  pub priced : 0 < s.latest_price
  pub risky : 0 < s.risk
  pub scored : is_reject s.band ≡ false
  pub fits :
      FitsCaps
        (quantity * s.sizing_price)
        ((requested_notional, s.requested) ∷ caps_of i policy s buffer_pct)
  pub recorded :
      p'
      ≡ with_decision
          (record i.proposal {
            target_position_pct_nav =
                (sized_decision i s binding quantity).approved_position_pct_nav;
          })
          (sized_decision i s binding quantity)

pub checked-eq-ok :
    (d : AllocationDecision) {d' : AllocationDecision} → checked_decision d ≡ ok d' → d ≡ d'
unfolding checked_decision
checked-eq-ok d h =
    ok_injective (raise_if-eq-ok (not (decision_in_range d)) allocation_out_of_range _ h).1

-- What follows a decision that was accepted.
after_checked :
    (d : AllocationDecision) (next : AllocationDecision → Result TraderProposal)
    {p' : TraderProposal}
    → (checked_decision d >>= next) ≡ ok p'
    → next d ≡ ok p'
after_checked d next h =
    let (d', made, h) = >>=-eq-ok (checked_decision d) next h in rw (checked-eq-ok d made) h

pub keep_proposal-IsKept :
    (i : ActiveAllocationInput) (id : ℕ) (reason : BindingConstraint) {p' : TraderProposal}
    → keep_proposal i id reason ≡ ok p'
    → IsKept i p'
unfolding keep_proposal unchanged_decision
keep_proposal-IsKept i id reason h =
    let d = unchanged_decision i id reason in
    record {
      decision = d;
      recorded = sym (ok_injective (after_checked d (λ d'. ok (with_decision i.proposal d')) h));
      unchanged = refl;
      nothing = refl;
    }

pub rejected_buy-IsRefused :
    (i : ActiveAllocationInput) (sleeve : SleevePolicy) (governor : GovernorEvaluation)
    (score : Option ℕ) (band : ScoreBand) (volatility : Option ℕ) (reason : BindingConstraint)
    {p' : TraderProposal}
    → is_buy i.proposal.action ≡ true
    → rejected_buy i sleeve governor score band volatility reason ≡ ok p'
    → IsRefused i p'
unfolding rejected_buy rejected_decision
rejected_buy-IsRefused i sleeve governor score band volatility reason asked h =
    let d = rejected_decision i sleeve governor score band volatility reason in
    record {
      decision = d;
      asked = asked;
      recorded = sym (ok_injective (after_checked d (λ d'. ok (zero_buy_target i.proposal d')) h));
      status = refl;
      nothing = refl;
      no_notional = refl;
    }

empty_decision :
    (i : ActiveAllocationInput) (s : Sizing) (binding : BindingConstraint) (quantity : ℕ)
    → quantity ≡ 0
    → let d = sized_decision i s binding quantity in
      (d.status ≡ AllocationStatus.rejected)
      × (d.approved_quantity ≡ 0)
      × (d.approved_notional_inr ≡ 0)
unfolding sized_decision
empty_decision i s binding quantity h =
    let none_bought : s.latest_price * 0 ≡ 0 = omega arith in
    (rw h refl, h, rw h (rw none_bought (quantize_whole 0 (0, refl))))

sized_buy-outcome :
    (i : ActiveAllocationInput) (policy : MoneyManagementPolicy) (s : Sizing) (buffer_pct : ℕ)
    {p' : TraderProposal}
    → cash_buffer_target_pct policy ≡ ok buffer_pct
    → is_buy i.proposal.action ≡ true
    → s.governor.brake.frozen ≡ false
    → (s.latest_price == 0 || s.risk == 0) ≡ false
    → is_reject s.band ≡ false
    → sized_buy i s (least_room (requested_notional, s.requested) (caps_of i policy s buffer_pct))
      ≡ ok p'
    → IsRefused i p' ⊎ IsSized i policy s p'
unfolding sized_buy
sized_buy-outcome i policy s buffer_pct buffer asked released priced scored h =
    let caps = caps_of i policy s buffer_pct in
    let room = least_room (requested_notional, s.requested) caps in
    let quantity = room.1 / s.sizing_price in
    let d = sized_decision i s room.0 quantity in
    let bought = λ (e : AllocationDecision).
      with_decision (record i.proposal { target_position_pct_nav = e.approved_position_pct_nav })
        e in
    let h = ok_injective (
      after_checked d (λ e. ok (if quantity == 0 then zero_buy_target i.proposal e else bought e))
        h) in
    elim (Bool-cases (quantity == 0)) [
      | inl empty ↦
          let (status, nothing, no_notional) = empty_decision i s room.0 quantity (ground arith) in
          inl (record {
            decision = d;
            asked = asked;
            recorded = sym (rw empty at h);
            status = status;
            nothing = nothing;
            no_notional = no_notional;
          })
      | inr some_left ↦ inr (record {
        buffer_pct = buffer_pct;
        buffer = buffer;
        binding = room.0;
        quantity = quantity;
        positive = ground arith;
        asked = asked;
        released = released;
        priced = ground arith;
        risky = ground arith;
        scored = scored;
        fits = quantity-FitsCaps (requested_notional, s.requested) caps s.sizing_price;
        recorded = sym (rw some_left at h);
      })
    ]

pub allocate_sized-outcome :
    (i : ActiveAllocationInput) (policy : MoneyManagementPolicy) (s : Sizing) {p' : TraderProposal}
    → is_buy i.proposal.action ≡ true
    → s.governor.brake.frozen ≡ false
    → (s.latest_price == 0 || s.risk == 0) ≡ false
    → is_reject s.band ≡ false
    → allocate_sized i policy s ≡ ok p'
    → IsRefused i p' ⊎ IsSized i policy s p'
unfolding allocate_sized
allocate_sized-outcome i policy s asked released priced scored h =
    let (buffer_pct, buffer, h) = >>=-eq-ok (cash_buffer_target_pct policy) _ h in
    sized_buy-outcome i policy s buffer_pct buffer asked released priced scored h
