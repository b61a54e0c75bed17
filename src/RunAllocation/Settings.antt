-- ===== src/RunAllocation/Settings.antt =====
-- What a run under the fallback policy spends.
use native.Mathlib.Nat.{mul-le-mul, zero-div}
use taurus_agent.Base.{
  ℕ, ◌+◌, ◌-◌, ◌*◌, ◌/◌, ◌≤◌, ◌<◌, ◌≡◌, sym, ◌∙◌, ap, List, ◌∷◌, ltb, ◌==◌, if◌then◌else◌, keep_if,
  length, ok, arith, Bool-cases, inl, inr,
}
use taurus_agent.Base.Int.{ℤ, pos_part, neg_part}
use taurus_agent.Money.Paise.{
  quantize_paise, quantize_bounds, IsWhole, IsWhole-mul, IsWhole-sub, quantize_whole,
}
use taurus_agent.Policy.Sections.{hundred}
use taurus_agent.Risk.{TraderProposal, AllocationDecision, requested_notional}
use taurus_agent.Allocation.Input.{ActiveAllocationPosition}
use taurus_agent.Allocation.Prices.{pct_to_notional, requested_increase_notional, latest_close}
use taurus_agent.Allocation.Rooms.{Room, least_room}
use taurus_agent.Allocation.Caps.{FitsCaps, quantity-FitsCaps}
use taurus_agent.Allocation.Bounds.{share-IsWhole, close-IsWhole, one_part, quantize_zero}
use taurus_agent.Allocation.Branches.{checked-eq-ok}
use taurus_agent.RunAllocation.Input.{FallbackAllocationPolicy, RunAllocationInput}
use taurus_agent.RunAllocation.Fallback.{
  fallback_candidate_score, fallback_caps, fallback_binding, fallback_decision,
  fallback_buy_decision, fallback_open_position_room,
}

position_left :
    (p : TraderProposal) (positions : List ActiveAllocationPosition) (max_open cost : ℕ)
    → 0 < cost
    → cost ≤ fallback_open_position_room p positions max_open
    → p.current_position_quantity ≡ 0
    → length (keep_if (λ q. ltb 0 q.quantity) positions) < max_open
unfolding fallback_open_position_room
position_left p positions max_open cost l h e = ground arith

module _ (i : RunAllocationInput) (policy : FallbackAllocationPolicy) where
  -- A decision of the fallback with a quantity, within the limits of the settings.
  pub record IsAffordable (p : TraderProposal) (cash : ℤ)
      (positions : List ActiveAllocationPosition) (d : AllocationDecision) : Type 0 where
    pub action : d.action ≡ p.action
    pub priced : 0 < latest_close (i.histories_by_symbol p.symbol)
    pub scored : 500_000 ≤ fallback_candidate_score i p
    pub notional :
        d.approved_notional_inr
        ≡ latest_close (i.histories_by_symbol p.symbol) * d.approved_quantity
    pub requested : d.approved_notional_inr ≤ requested_increase_notional p i.nav_inr
    pub stock :
        pct_to_notional p.current_position_pct_nav i.nav_inr + d.approved_notional_inr
        ≤ pct_to_notional policy.max_position_pct_nav i.nav_inr
    pub funded : d.approved_notional_inr + neg_part cash ≤ pos_part cash + 50
    pub positions_left :
        p.current_position_quantity ≡ 0
        → length (keep_if (λ q. ltb 0 q.quantity) positions) < policy.max_open_positions

  module _ (p : TraderProposal) (cash : ℤ) (positions : List ActiveAllocationPosition) where
    abbrev latest : ℕ
    latest = latest_close (i.histories_by_symbol p.symbol)

    pub price-IsWhole : IsWhole latest
    unfolding latest_close
    price-IsWhole = close-IsWhole _

    -- The room of a purchase that is priced and scored.
    sized-IsAffordable :
        (quantity : ℕ) (d : AllocationDecision)
        → d.approved_quantity ≡ quantity
        → d.approved_notional_inr ≡ quantize_paise (latest * quantity) 1
        → d.action ≡ p.action
        → 0 < latest
        → 0 < quantity
        → 500_000 ≤ fallback_candidate_score i p
        → FitsCaps (quantity * latest) (
            (requested_notional, requested_increase_notional p i.nav_inr)
            ∷ fallback_caps i policy p cash positions)
        → IsAffordable p cash positions d
    unfolding fallback_caps
    sized-IsAffordable quantity d same notional action priced positive scored fits =
        let cap = pct_to_notional policy.max_position_pct_nav i.nav_inr in
        let held = pct_to_notional p.current_position_pct_nav i.nav_inr in
        let whole = IsWhole-mul latest quantity price-IsWhole in
        let value = notional ∙ quantize_whole (latest * quantity) whole in
        let least : 1 * 1 ≤ latest * quantity = mul-le-mul priced positive in
        let rest =
          IsWhole-sub cap held (share-IsWhole policy.max_position_pct_nav hundred i.nav_inr)
            (share-IsWhole p.current_position_pct_nav hundred i.nav_inr) in
        let (low, high) = quantize_bounds (pos_part cash) 1 (omega arith) in
        record {
          action = action;
          priced = priced;
          scored = scored;
          notional = value ∙ ap (λ (t : ℕ). latest * t) (sym same);
          requested = omega (arith, value, fits.0);
          stock = omega (arith, value, fits.1.0, quantize_whole (cap - held) rest);
          funded = elim (one_part cash) [
            | inl poor ↦
                let e : quantize_paise (pos_part cash) 1 ≡ 0 = rw poor quantize_zero in
                absurd (omega (arith, fits.1.1.0))
            | inr rich ↦ omega (arith, value, fits.1.1.0)
          ];
          positions_left =
              position_left p positions policy.max_open_positions (quantity * latest) (omega arith)
                fits.1.1.1.0;
        }

    -- The binding of a purchase with a quantity is the least room.
    pub binding-IsAffordable :
        (d : AllocationDecision)
        → d
          ≡ fallback_decision i policy p latest
              (if latest == 0
                then 0
                else (fallback_binding i policy p latest cash positions).1 / latest)
              (fallback_binding i policy p latest cash positions).0
        → 0 < d.approved_quantity
        → IsAffordable p cash positions d
    unfolding fallback_decision fallback_binding
    binding-IsAffordable d e positive =
        let size = ap (λ (t : AllocationDecision). t.approved_quantity) e in
        let cost = ap (λ (t : AllocationDecision). t.approved_notional_inr) e in
        elim (Bool-cases (latest == 0)) [
          | inl free ↦ absurd (let none_left = rw free at size in omega arith)
          | inr priced ↦ elim (Bool-cases (ltb (fallback_candidate_score i p) 500_000)) [
            | inl low ↦ absurd (
                let none_left : d.approved_quantity ≡ 0 / latest = rw (priced, low) at size in
                omega (arith, zero-div latest))
            | inr scored ↦
                let first : Room = (requested_notional, requested_increase_notional p i.nav_inr) in
                let caps = fallback_caps i policy p cash positions in
                let quantity = (least_room first caps).1 / latest in
                let size' : d.approved_quantity ≡ quantity = rw (priced, scored) at size in
                let cost' : d.approved_notional_inr ≡ quantize_paise (latest * quantity) 1 =
                  rw (priced, scored) at cost in
                sized-IsAffordable quantity d size' cost'
                  (ap (λ (t : AllocationDecision). t.action) e) (ground arith) (omega arith)
                  (ground arith) (quantity-FitsCaps first caps latest)
          ]
        ]

-- A decision of the fallback policy that has a quantity takes the proposal's action, at a positive
-- last close and with a score of at least 50, and costs that quantity at that close: no more than the
-- request, than what the position limit leaves beside the current holding, and, to half a paisa, than
-- the cash. Where no position is held, fewer positions are open than the policy allows.
pub fallback_purchase-IsAffordable :
    (i : RunAllocationInput) (policy : FallbackAllocationPolicy) (p : TraderProposal) (cash : ℤ)
    (positions : List ActiveAllocationPosition) {d : AllocationDecision}
    → fallback_buy_decision i policy p cash positions ≡ ok d
    → 0 < d.approved_quantity
    → IsAffordable i policy p cash positions d
unfolding fallback_buy_decision
fallback_purchase-IsAffordable i policy p cash positions h =
    binding-IsAffordable i policy p cash positions _ (sym (checked-eq-ok _ h))
