-- ===== src/Broker/Fills/Built.antt =====
-- What every built fill carries.
use mathlib.Core.Path.{subst}
use taurus_agent.Base.{
  ℕ, ◌+◌, ◌*◌, ◌≤◌, ◌≡◌, refl, sym, ap, List, [], ◌∷◌, arith, sum_by, All, ok, >>=-eq-ok,
  ok_injective, ◌==◌, if◌then◌else◌, ◌∙◌,
}
use taurus_agent.Base.Int.{ℤ, pos, negsuc, pos_mul}
use taurus_agent.Execution.{OrderSide, PaperFill, PaperOrder, Settings, IdScheme, IsValidSettings}
use taurus_agent.Execution.Slippage.{fill_price}
use taurus_agent.Broker.State.Drift.{IsPriced}
use taurus_agent.Broker.Fills.Plan.{fill_plan_parts}
use taurus_agent.Broker.Fills.{
  FillAmounts, amounts_at, fill_amounts, FillRequest, build_fill, build_from, build_fills,
  fill_plan, build_next_open_fill,
}

pub record IsAmounts (quantity : ℕ) (a : FillAmounts) : Type 0 where
  pub gross : a.gross_value_inr ≡ a.fill_price_inr * quantity
  pub price : 1 ≤ a.fill_price_inr
  pub units : 1 ≤ quantity

amounts_at-IsAmounts :
    (s : Settings) (reference quantity : ℕ) (price : ℤ) {a : FillAmounts}
    → amounts_at s reference quantity price ≡ ok a
    → IsAmounts quantity a
unfolding amounts_at
amounts_at-IsAmounts s reference quantity (pos p) {a} h = ground (arith, pos_mul p quantity)
amounts_at-IsAmounts s reference quantity (negsuc p) {a} h = ground arith

pub fill_amounts-IsAmounts :
    (s : Settings) (side : OrderSide) (reference quantity : ℕ) {a : FillAmounts}
    → fill_amounts s side reference quantity ≡ ok a
    → IsAmounts quantity a
unfolding fill_amounts
fill_amounts-IsAmounts s side reference quantity h =
    let (price, priced, rest) = >>=-eq-ok (fill_price s reference side) _ h in
    amounts_at-IsAmounts s reference quantity price rest

-- What a fill of a request carries.
pub record IsBuilt (r : FillRequest) (quantity : ℕ) (f : PaperFill) : Type 0 where
  pub units : f.quantity ≡ quantity
  pub order : f.order_id ≡ r.order_id
  pub decision : f.final_decision_id ≡ r.decision.final_decision_id
  pub symbol : f.symbol ≡ r.decision.symbol
  pub side : f.side ≡ r.side
  pub priced : IsPriced f

-- The fills of a plan, in its order.
abbrev pub AreBuilt : FillRequest → List ℕ → List PaperFill → Type 0
AreBuilt r [] [] = Unit
AreBuilt r [] (f ∷ fs) = ⊥
AreBuilt r (q ∷ plan) [] = ⊥
AreBuilt r (q ∷ plan) (f ∷ fs) = IsBuilt r q f × AreBuilt r plan fs

module _ (ids : IdScheme) (s : Settings) where
  build_fill-IsBuilt :
      (r : FillRequest) (sequence quantity : ℕ) {f : PaperFill}
      → build_fill ids s r sequence quantity ≡ ok f
      → IsBuilt r quantity f
  unfolding build_fill
  build_fill-IsBuilt r sequence quantity {f} h =
      let reference = if sequence == 1 then r.open_price else r.close_price in
      let (a, amounts, e) = >>=-eq-ok (fill_amounts s r.side reference quantity) _ h in
      ground (arith, fill_amounts-IsAmounts s r.side reference quantity amounts)

  build_from-IsBuilt :
      (r : FillRequest) (sequence : ℕ) (plan : List ℕ) {fs : List PaperFill}
      → build_from ids s r sequence plan ≡ ok fs
      → AreBuilt r plan fs
  unfolding build_from
  build_from-IsBuilt r sequence [] h = subst (AreBuilt r []) (ok_injective h) tt
  build_from-IsBuilt r sequence (q ∷ plan) h =
      let (f, built, rest) = >>=-eq-ok (build_fill ids s r sequence q) _ h in
      let (fs, later, e) = >>=-eq-ok (build_from ids s r (sequence + 1) plan) _ rest in
      subst (AreBuilt r (q ∷ plan)) (ok_injective e)
        (build_fill-IsBuilt r sequence q built, build_from-IsBuilt r (sequence + 1) plan later)

  -- The fills follow the plan of the quantity.
  pub build_fills-AreBuilt :
      (r : FillRequest) (quantity : ℕ) {fs : List PaperFill}
      → build_fills ids s r quantity ≡ ok fs
      → AreBuilt r (fill_plan s quantity) fs
  unfolding build_fills
  build_fills-AreBuilt r quantity h = build_from-IsBuilt r 1 (fill_plan s quantity) h

-- The units of the fills are those of the plan.
pub AreBuilt-units :
    (r : FillRequest) (plan : List ℕ) (fs : List PaperFill)
    → AreBuilt r plan fs
    → sum_by (λ f. f.quantity) fs ≡ sum_by (λ q. q) plan
AreBuilt-units r [] [] h = refl
AreBuilt-units r [] (f ∷ fs) h = absurd h
AreBuilt-units r (q ∷ plan) [] h = absurd h
AreBuilt-units r (q ∷ plan) (f ∷ fs) (built, rest) =
    omega (arith, built.units, AreBuilt-units r plan fs rest)

-- What each fill of a request carries, whatever the plan.
pub AreBuilt-All :
    (P : PaperFill → Type 0) (r : FillRequest) (plan : List ℕ) (fs : List PaperFill)
    → ((q : ℕ) (f : PaperFill) → IsBuilt r q f → P f)
    → AreBuilt r plan fs
    → All P fs
AreBuilt-All P r [] [] step h = tt
AreBuilt-All P r [] (f ∷ fs) step h = absurd h
AreBuilt-All P r (q ∷ plan) [] step h = absurd h
AreBuilt-All P r (q ∷ plan) (f ∷ fs) step (built, rest) =
    (step q f built, AreBuilt-All P r plan fs step rest)

-- The fills of an order add up to the ordered quantity, and each carries the decision, the order,
-- the symbol and the side of the request, and is valued at its price.
pub build_fills_carry :
    (ids : IdScheme) (s : Settings) (r : FillRequest) (quantity : ℕ) {fs : List PaperFill}
    → IsValidSettings s
    → build_fills ids s r quantity ≡ ok fs
    → (sum_by (λ f. f.quantity) fs ≡ quantity)
      × All
          (λ f.
            (f.final_decision_id ≡ r.decision.final_decision_id)
            × (f.order_id ≡ r.order_id)
            × (f.symbol ≡ r.decision.symbol)
            × (f.side ≡ r.side)
            × IsPriced f)
          fs
build_fills_carry ids s r quantity {fs} valid h =
    let built = build_fills-AreBuilt ids s r quantity h in
    (
      AreBuilt-units r (fill_plan s quantity) fs built ∙ (fill_plan_parts s quantity valid).0,
      AreBuilt-All _ r (fill_plan s quantity) fs
          (λ q f b. (b.decision, b.order, b.symbol, b.side, b.priced)) built,
    )

-- The fill of a pending order has the units that it is built for.
pub build_next_open_fill-units :
    (ids : IdScheme) (s : Settings) (order : PaperOrder)
    (run_id quantity reference_price trade_date filled_at : ℕ) {f : PaperFill}
    → build_next_open_fill ids s order run_id quantity reference_price trade_date filled_at ≡ ok f
    → (f.quantity ≡ quantity)
      × (f.order_id ≡ order.order_id)
      × (f.final_decision_id ≡ order.final_decision_id)
unfolding build_next_open_fill
build_next_open_fill-units ids s order run_id quantity reference_price trade_date filled_at h =
    let (a, amounts, e) = >>=-eq-ok (fill_amounts s order.side reference_price quantity) _ h in
    let f = ok_injective e in
    (
      ap (λ x. x.quantity) (sym f),
      ap (λ x. x.order_id) (sym f),
      ap (λ x. x.final_decision_id) (sym f),
    )
