-- ===== src/Broker/Fills/Total.antt =====
-- Fills are built wherever prices are positive and slippage is at most half of the price.
use mathlib.Core.Path.{subst}
use taurus_agent.Base.{
  ℕ, zero, suc, ◌+◌, ◌-◌, ◌*◌, ◌≤◌, ◌<◌, ◌≡◌, refl, sym, ok_injective, ◌∙◌, List, [], ◌∷◌, arith,
  All, Returns, >>=-Returns, raise_if-Returns, invalid_fill, ◌==◌, if◌then◌else◌,
}
use taurus_agent.Base.Int.{pos, pos_mul, ◌*ℤ◌, leb_ℤ}
use taurus_agent.Money.{rate_unit}
use taurus_agent.Execution.{OrderSide, buy, sell, PaperOrder, Settings, IsValidSettings, IdScheme}
use taurus_agent.Execution.Costs.{calculate}
use taurus_agent.Execution.Costs.Bounds.{calculate_bounds}
use taurus_agent.Execution.Slippage.{fill_price}
use taurus_agent.Execution.Slippage.Bounds.{fill_price_bounds, exact_price}
use taurus_agent.Broker.Fills.{
  amounts_at, fill_amounts, FillRequest, build_fill, build_from, build_fills, build_next_open_fill,
  fill_plan,
}
use taurus_agent.Broker.Fills.Plan.{fill_plan_parts}

amounts_at-Returns :
    (s : Settings) (reference quantity p : ℕ)
    → 1 ≤ p
    → 1 ≤ quantity
    → Returns (amounts_at s reference quantity (pos p))
unfolding amounts_at
amounts_at-Returns s reference quantity p h h' =
    let (c, charged, _, _) = calculate_bounds s (p * quantity) in
    >>=-Returns (calculate s (pos p *ℤ pos quantity)) _ (c, rw pos_mul charged)
      (λ costs e.
        raise_if-Returns (leb_ℤ (pos p) (pos 0)) invalid_fill _ (ground arith)
          (raise_if-Returns (quantity == 0) invalid_fill _ (ground arith) (_, refl)))

suc_mul-le : (r x : ℕ) → x ≤ suc r * x
suc_mul-le r x = omega arith

-- A price of a tick or more is at least a tick after slippage.
price_pos :
    (bps r p : ℕ) (side : OrderSide)
    → 2 * bps ≤ rate_unit
    → 2 * exact_price bps side (suc r) < 2 * (p * rate_unit) + rate_unit
    → 1 ≤ p
price_pos bps r p buy small h = omega arith
price_pos bps r p sell small h =
    let at_least : rate_unit - bps ≤ suc r * (rate_unit - bps) = suc_mul-le r (rate_unit - bps) in
    omega arith

pub fill_amounts-Returns :
    (s : Settings) (side : OrderSide) (reference quantity : ℕ)
    → 2 * s.slippage_bps ≤ rate_unit
    → 1 ≤ reference
    → 1 ≤ quantity
    → Returns (fill_amounts s side reference quantity)
unfolding fill_amounts
fill_amounts-Returns s side zero quantity small h h' = absurd (omega arith)
fill_amounts-Returns s side (suc r) quantity small h h' =
    let (p, priced, _, _, close) = fill_price_bounds s r side (omega arith) in
    >>=-Returns (fill_price s (suc r) side) _ (pos p, priced)
      (λ price e.
        let e' : pos p ≡ price = ok_injective (sym priced ∙ e) in
        subst (λ x. Returns (amounts_at s (suc r) quantity x)) e'
          (amounts_at-Returns s (suc r) quantity p (price_pos s.slippage_bps r p side small close)
            h'))

module _ (ids : IdScheme) (s : Settings) (small : 2 * s.slippage_bps ≤ rate_unit) where
  build_fill-Returns :
      (r : FillRequest) (sequence quantity : ℕ)
      → 1 ≤ r.open_price
      → 1 ≤ r.close_price
      → 1 ≤ quantity
      → Returns (build_fill ids s r sequence quantity)
  unfolding build_fill
  build_fill-Returns r sequence quantity opened closed h =
      let reference = if sequence == 1 then r.open_price else r.close_price in
      >>=-Returns (fill_amounts s r.side reference quantity) _
        (fill_amounts-Returns s r.side reference quantity small (ground arith) h) (λ a e. (_, refl))

  build_from-Returns :
      (r : FillRequest) (sequence : ℕ) (plan : List ℕ)
      → 1 ≤ r.open_price
      → 1 ≤ r.close_price
      → All (λ q. 1 ≤ q) plan
      → Returns (build_from ids s r sequence plan)
  unfolding build_from
  build_from-Returns r sequence [] opened closed h = ([], refl)
  build_from-Returns r sequence (q ∷ plan) opened closed h =
      >>=-Returns (build_fill ids s r sequence q) _
        (build_fill-Returns r sequence q opened closed h.0)
        (λ f e.
          >>=-Returns (build_from ids s r (sequence + 1) plan) _
            (build_from-Returns r (sequence + 1) plan opened closed h.1) (λ fs e'. (f ∷ fs, refl)))

  -- The fills of any quantity are built.
  pub build_fills-Returns :
      (r : FillRequest) (quantity : ℕ)
      → IsValidSettings s
      → 1 ≤ r.open_price
      → 1 ≤ r.close_price
      → Returns (build_fills ids s r quantity)
  unfolding build_fills
  build_fills-Returns r quantity valid opened closed =
      build_from-Returns r 1 (fill_plan s quantity) opened closed
        (fill_plan_parts s quantity valid).1

  -- The fill of a pending order is built.
  pub build_next_open_fill-Returns :
      (order : PaperOrder) (run_id quantity reference_price trade_date filled_at : ℕ)
      → 1 ≤ reference_price
      → 1 ≤ quantity
      → Returns
          (build_next_open_fill ids s order run_id quantity reference_price trade_date filled_at)
  unfolding build_next_open_fill
  build_next_open_fill-Returns order run_id quantity reference_price trade_date filled_at h h' =
      >>=-Returns (fill_amounts s order.side reference_price quantity) _
        (fill_amounts-Returns s order.side reference_price quantity small h h') (λ a e. (_, refl))
