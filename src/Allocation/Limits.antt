-- ===== src/Allocation/Limits.antt =====
-- A sized purchase against the limits of the policy.
use mathlib.Core.Path.{subst}
use native.Mathlib.Nat.{mul-le-mul}
use taurus_agent.Base.{
  ℕ, ◌+◌, ◌*◌, ◌≤◌, ◌<◌, ◌≡◌, refl, sym, ◌∙◌, ap, false, some, ltb, length, keep_if, ok, arith, inl,
  inr, some_injective,
}
use taurus_agent.Base.Int.{pos_part, neg_part}
use taurus_agent.Money.Paise.{quantize_whole, IsWhole-mul}
use taurus_agent.Policy.Schema.{SleevePolicy, MoneyManagementPolicy}
use taurus_agent.Policy.Sections.{hundred}
use taurus_agent.Risk.{AllocationDecision, TraderProposal}
use taurus_agent.Allocation.Input.{ActiveAllocationInput, HistoryStatistics}
use taurus_agent.Allocation.Prices.{
  pct_to_notional, requested_increase_notional, latest_close, buffered_price, risk_per_share,
}
use taurus_agent.Allocation.Governors.{GovernorEvaluation, evaluate_governors}
use taurus_agent.Allocation.Rooms.{cash_buffer_target_pct}
use taurus_agent.Allocation.Decisions.{Sizing, mapped_sleeve, allocatable_sleeve, zero_buy_target}
use taurus_agent.Allocation.Service.{caps_of, sized_decision, sizing_of, allocate}
use taurus_agent.Allocation.Branches.{IsSized}
use taurus_agent.Allocation.Outcome.{allocate_outcome}
use taurus_agent.Allocation.Bounds.{
  share-IsWhole, latest-IsWhole, buffered-le, risk_room, stock_room, cash_room, position_room,
}

-- A decision with a quantity, within the limits of the policy. The cost is at the buffered price.
pub record IsWithinLimits (policy : MoneyManagementPolicy) (i : ActiveAllocationInput)
    (d : AllocationDecision) : Type 0 where
  pub sleeve : SleevePolicy
  pub takes_risk : allocatable_sleeve policy (mapped_sleeve policy i.strategy_name) ≡ some sleeve
  pub released : (evaluate_governors i sleeve policy).brake.frozen ≡ false
  pub priced : 0 < latest_close i.history
  pub notional : d.approved_notional_inr ≡ latest_close i.history * d.approved_quantity
  pub requested : d.approved_notional_inr ≤ requested_increase_notional i.proposal i.nav_inr
  pub risk :
      d.approved_quantity
        * risk_per_share
            (buffered_price (latest_close i.history) i.buy_price_buffer_pct)
            i.proposal.stop_loss_pct
      ≤ d.allowed_risk_inr
  pub stock :
      pct_to_notional i.proposal.current_position_pct_nav i.nav_inr + d.approved_notional_inr
      ≤ pct_to_notional policy.limits.max_stock_pct_nav i.nav_inr
  pub buffer_pct : ℕ
  pub buffer : cash_buffer_target_pct policy ≡ ok buffer_pct
  pub cash :
      pct_to_notional buffer_pct i.nav_inr
        + d.approved_quantity * buffered_price (latest_close i.history) i.buy_price_buffer_pct
        + neg_part i.available_cash_inr
      ≤ pos_part i.available_cash_inr + 50
  pub positions :
      i.proposal.current_position_quantity ≡ 0
      → length (keep_if (λ p. ltb 0 p.quantity) i.current_positions)
        < policy.limits.max_open_positions

module _ (stats : HistoryStatistics) (policy : MoneyManagementPolicy) (i : ActiveAllocationInput)
    (sleeve : SleevePolicy) (governor : GovernorEvaluation) where
  -- The parts of the sizing.
  abbrev SizingParts : Sizing → Type 0
  SizingParts s =
      (s.latest_price ≡ latest_close i.history)
      × (s.sizing_price ≡ buffered_price (latest_close i.history) i.buy_price_buffer_pct)
      × (s.risk ≡ risk_per_share s.sizing_price i.proposal.stop_loss_pct)
      × (s.requested ≡ requested_increase_notional i.proposal i.nav_inr)
      × (s.current_notional ≡ pct_to_notional i.proposal.current_position_pct_nav i.nav_inr)
      × (s.governor ≡ governor)

  sizing_parts : SizingParts (sizing_of stats i policy sleeve governor)
  unfolding sizing_of
  sizing_parts = (refl, refl, refl, refl, refl, refl)

sized_notional :
    (i : ActiveAllocationInput) (s : Sizing) {p' : TraderProposal} (policy : MoneyManagementPolicy)
    (h : IsSized i policy s p')
    → s.latest_price ≡ latest_close i.history
    → (sized_decision i s h.binding h.quantity).approved_notional_inr ≡ s.latest_price * h.quantity
unfolding sized_decision
sized_notional i s policy h e = rw e (
    quantize_whole (latest_close i.history * h.quantity)
      (IsWhole-mul (latest_close i.history) h.quantity (latest-IsWhole i)))

sized-IsWithinLimits :
    (stats : HistoryStatistics) (policy : MoneyManagementPolicy) (i : ActiveAllocationInput)
    (sleeve : SleevePolicy) (s : Sizing) {p' : TraderProposal}
    → allocatable_sleeve policy (mapped_sleeve policy i.strategy_name) ≡ some sleeve
    → SizingParts stats policy i sleeve (evaluate_governors i sleeve policy) s
    → (h : IsSized i policy s p')
    → IsWithinLimits policy i (sized_decision i s h.binding h.quantity)
unfolding sized_decision caps_of
sized-IsWithinLimits stats policy i sleeve s found (latest, price, risk, requested, current, gov)
      h =
    let notional = sized_notional i s policy h latest in
    let whole = latest-IsWhole i in
    let le = buffered-le (latest_close i.history) i.buy_price_buffer_pct whole in
    let cheap : s.latest_price * h.quantity ≤ h.quantity * s.sizing_price =
      let m : s.latest_price * h.quantity ≤ s.sizing_price * h.quantity =
        mul-le-mul {m₁ = h.quantity} (omega (arith, latest, price)) (omega arith) in
      omega arith in
    let paid : 0 < s.latest_price * h.quantity =
      let m : 1 * 1 ≤ s.latest_price * h.quantity = mul-le-mul h.priced h.positive in omega arith in
    let cost = h.quantity * s.sizing_price in
    let fits = h.fits in
    let per_share = risk ∙ ap (λ (t : ℕ). risk_per_share t i.proposal.stop_loss_pct) price in
    let spent = ap (λ (t : ℕ). h.quantity * t) price in
    let held = share-IsWhole i.proposal.current_position_pct_nav hundred i.nav_inr in
    let stock =
      stock_room i policy s.current_notional cost (rw current held) (omega arith) fits.1.1.1.0 in
    let cash = cash_room i h.buffer_pct cost (omega arith) fits.1.1.1.1.1.0 in
    record {
      sleeve = sleeve;
      takes_risk = found;
      released = rw (← gov) h.released;
      priced = omega (arith, latest, h.priced);
      notional = notional ∙ ap (λ (t : ℕ). t * h.quantity) latest;
      requested = omega (arith, notional, fits.0, requested);
      risk = rw (← per_share) (
          risk_room s.allowed_risk s.latest_price s.risk h.quantity s.sizing_price (rw latest whole)
            h.priced (omega (arith, latest, price)) fits.1.0);
      stock = omega (arith, stock, notional, current);
      buffer_pct = h.buffer_pct;
      buffer = h.buffer;
      cash = omega (arith, cash, spent);
      positions = position_room i policy cost (omega arith) fits.1.1.1.1.1.1.1.0;
    }

zero_buy-decision :
    (p : TraderProposal) (d : AllocationDecision)
    → (zero_buy_target p d).allocation_decision ≡ some d
unfolding zero_buy_target
zero_buy-decision p d = ground arith

-- A decision that an allocation records with a positive quantity is within the limits. Its sleeve
-- takes new risk and is not frozen; its notional is the quantity at the last close and at most the
-- requested increase; the quantity times the risk of a share is at most the allowed risk; with the
-- position held it is at most the cap of one stock; its cost at the buffered price leaves the cash
-- buffer, to half a paisa; and a new position is one of at most the number allowed.
pub allocation-IsWithinLimits :
    (stats : HistoryStatistics) (policy : MoneyManagementPolicy) (i : ActiveAllocationInput)
    {p' : TraderProposal} {d : AllocationDecision}
    → allocate stats policy i ≡ ok p'
    → p'.allocation_decision ≡ some d
    → 0 < d.approved_quantity
    → IsWithinLimits policy i d
allocation-IsWithinLimits stats policy i {p'} {d} h recorded positive =
    elim (allocate_outcome stats policy i h) [
      | inl kept ↦
          let same =
            some_injective
              (sym (ap (λ (p : TraderProposal). p.allocation_decision) kept.recorded) ∙ recorded) in
          absurd
            (omega (arith, kept.nothing, ap (λ (e : AllocationDecision). e.approved_quantity) same))
      | inr (inl refused) ↦
          let same = some_injective (
            sym (zero_buy-decision i.proposal refused.decision)
            ∙ sym (ap (λ (p : TraderProposal). p.allocation_decision) refused.recorded)
            ∙ recorded) in
          absurd (
            omega
              (arith, refused.nothing, ap (λ (e : AllocationDecision). e.approved_quantity) same))
      | inr (inr (sleeve, sized)) ↦
          let governor = evaluate_governors i sleeve policy in
          let same = some_injective (
            sym (ap (λ (p : TraderProposal). p.allocation_decision) sized.1.recorded) ∙ recorded) in
          subst (IsWithinLimits policy i) same (
            sized-IsWithinLimits stats policy i sleeve (sizing_of stats i policy sleeve governor)
              sized.0 (sizing_parts stats policy i sleeve governor) sized.1)
    ]
