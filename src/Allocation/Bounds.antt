-- ===== src/Allocation/Bounds.antt =====
-- What the room that a cap leaves says of the limit behind it.
use native.Mathlib.Nat.{div-mul-le_self, mul-le-mul}
use native.Mathlib.Decide.{dec_lt}
use taurus_agent.Base.{
  ℕ, zero, suc, ◌+◌, ◌-◌, ◌*◌, ◌/◌, ◌≤◌, ◌<◌, ◌≡◌, ◌⊎◌, refl, ◌||◌, Option, none, some, ◌==◌, ltb,
  length, keep_if, arith, Bool-cases, inl, inr,
}
use taurus_agent.Base.Int.{ℤ, pos, negsuc, pos_part, neg_part, ◌-ℤ◌, -ℤ_parts}
use taurus_agent.Money.Paise.{
  quantize_paise, quantize_mono, quantize_bounds, IsWhole, quantize-IsWhole, IsWhole-mul,
  IsWhole-sub, quantize_whole, quantize_scaled,
}
use taurus_agent.Store.{Candle}
use taurus_agent.Policy.Schema.{MoneyManagementPolicy}
use taurus_agent.Policy.Sections.{hundred}
use taurus_agent.Allocation.Input.{ActiveAllocationInput}
use taurus_agent.Allocation.Prices.{
  share_of, pct_to_notional, latest_close, close_of, buffered_price, risk_to_notional,
}
use taurus_agent.Allocation.Rooms.{stock_exposure_room, cash_buffer_room, open_position_room}

pub share-IsWhole : (parts whole : ℕ) (nav : ℤ) → IsWhole (share_of parts whole nav)
unfolding share_of
share-IsWhole parts whole (pos n) = elim (Bool-cases (parts == 0 || n == 0)) [
  | inl empty ↦ rw empty (0, refl)
  | inr full ↦ rw full (quantize-IsWhole (n * parts) whole)
]
share-IsWhole parts whole (negsuc n) = (0, refl)

pub close-IsWhole : (candle : Option Candle) → IsWhole (close_of candle)
close-IsWhole none = (0, refl)
close-IsWhole (some candle) = quantize-IsWhole candle.close_price 1

pub latest-IsWhole : (i : ActiveAllocationInput) → IsWhole (latest_close i.history)
unfolding latest_close
latest-IsWhole i = close-IsWhole _

pub buffered-le : (latest buffer : ℕ) → IsWhole latest → latest ≤ buffered_price latest buffer
unfolding buffered_price
buffered-le latest buffer w = elim (Bool-cases (latest == 0 || buffer == 0)) [
  | inl plain ↦ rw plain (omega arith)
  | inr raised ↦
      let up =
        quantize_mono (latest * hundred) (latest * (hundred + buffer)) hundred (omega arith)
          (omega arith) in
      rw raised (omega (arith, quantize_scaled latest hundred (omega arith) w))
]

no_product : (q p : ℕ) → 0 < p → q * p ≤ 0 → q ≡ 0
no_product zero p l h = refl
no_product (suc q) p l h = absurd (omega arith)

-- A product that is no larger, of a factor that is no smaller.
factor-le : (q a latest price : ℕ) → 0 < latest → latest ≤ price → q * price ≤ latest * a → q ≤ a
factor-le q a latest price l le h = elim (dec_lt a q) [
  | yes more ↦
      let up : (a + 1) * latest ≤ q * price = mul-le-mul (omega arith) le in absurd (omega arith)
  | no within ↦ omega arith
]

pub risk_room :
    (allowed latest risk quantity price : ℕ)
    → IsWhole latest
    → 0 < latest
    → latest ≤ price
    → quantity * price ≤ risk_to_notional allowed latest risk
    → quantity * risk ≤ allowed
unfolding risk_to_notional
risk_room allowed latest risk quantity price w l le h =
    let guard = allowed == 0 || (latest == 0 || risk == 0) in
    let most = allowed / risk in
    elim (Bool-cases guard) [
      | inl barred ↦
          let e = no_product quantity price (omega arith) (rw barred at h) in rw e (omega arith)
      | inr open_room ↦
          let fits : quantity * price ≤ quantize_paise (latest * most) 1 = rw open_room at h in
          let fewer =
            factor-le quantity most latest price l le
              (omega (arith, quantize_whole (latest * most) (IsWhole-mul latest most w))) in
          let up : quantity * risk ≤ most * risk = mul-le-mul fewer (omega arith) in
          omega (arith, div-mul-le_self allowed risk)
    ]

pub stock_room :
    (i : ActiveAllocationInput) (policy : MoneyManagementPolicy) (current cost : ℕ)
    → IsWhole current
    → 0 < cost
    → cost ≤ stock_exposure_room i policy current
    → current + cost ≤ pct_to_notional policy.limits.max_stock_pct_nav i.nav_inr
unfolding stock_exposure_room
stock_room i policy current cost w l h =
    let cap = pct_to_notional policy.limits.max_stock_pct_nav i.nav_inr in
    let whole = IsWhole-sub cap current (share-IsWhole _ hundred i.nav_inr) w in
    omega (arith, quantize_whole (cap - current) whole)

pub one_part : (z : ℤ) → (pos_part z ≡ 0) ⊎ (neg_part z ≡ 0)
one_part (pos n) = inr refl
one_part (negsuc n) = inl refl

pub quantize_zero : quantize_paise 0 1 ≡ 0
quantize_zero = quantize_whole 0 (0, refl)

pub cash_room :
    (i : ActiveAllocationInput) (buffer_pct cost : ℕ)
    → 0 < cost
    → cost ≤ cash_buffer_room i buffer_pct
    → pct_to_notional buffer_pct i.nav_inr + cost + neg_part i.available_cash_inr
      ≤ pos_part i.available_cash_inr + 50
unfolding cash_buffer_room
cash_room i buffer_pct cost l h =
    let kept = pct_to_notional buffer_pct i.nav_inr in
    let free = i.available_cash_inr -ℤ pos kept in
    let (low, high) = quantize_bounds (pos_part free) 1 (omega arith) in
    let parts = -ℤ_parts i.available_cash_inr (pos kept) in
    elim (one_part free) [
      | inl nothing ↦
          absurd
            (let e : cost ≤ quantize_paise 0 1 = rw nothing at h in omega (arith, quantize_zero))
      | inr positive ↦ omega arith
    ]

pub position_room :
    (i : ActiveAllocationInput) (policy : MoneyManagementPolicy) (cost : ℕ)
    → 0 < cost
    → cost ≤ open_position_room i policy
    → i.proposal.current_position_quantity ≡ 0
    → length (keep_if (λ p. ltb 0 p.quantity) i.current_positions)
      < policy.limits.max_open_positions
unfolding open_position_room
position_room i policy cost l h e = ground arith
