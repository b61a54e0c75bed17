-- ===== src/Approval/Quantity.antt =====
-- The quantity that the portfolio manager approves.
use mathlib.Core.Path.{subst}
use native.Mathlib.Nat.{div-mul-le_self}
use taurus_agent.Base.{
  ℕ, zero, suc, ◌+◌, ◌*◌, ◌/◌, ◌≤◌, ◌<◌, ◌≡◌, refl, sym, Option, none, some, ◌==◌, ok, >>=-eq-ok,
  ok_injective, arith, Bool-cases, inl, inr,
}
use taurus_agent.Base.Int.{ℤ, pos, negsuc, ◌-ℤ◌, pos_part, pos_injective}
use taurus_agent.Money.{negate}
use taurus_agent.Execution.{Settings}
use taurus_agent.Risk.{buy}
use taurus_agent.Store.{Session, Candle}
use taurus_agent.Store.Queries.{latest_candle}
use taurus_agent.Broker.Place.Decide.{target_quantity}
use taurus_agent.Approval.{
  equity_for, quantity_at_close, quantity_on, target_quantity_for, quantity_for,
}

-- The purchase is at the latest close, within a share of the equity.
pub record FitsEquity (s : Settings) (db : Session) (symbol pct units : ℕ) : Type 0 where
  pub candle : Candle
  pub equity : ℕ
  pub quoted : latest_candle db symbol ≡ some candle
  pub funded : equity_for s db ≡ ok (pos equity)
  pub within : units * (1_000_000 * candle.close_price) ≤ equity * pct

-- A purchase brings the holding to a positive target.
purchase_target :
    (target : ℤ) (current q : ℕ)
    → pos_part (target -ℤ pos current) ≡ q
    → 0 < q
    → target ≡ pos (current + q)
unfolding ◌-ℤ◌
purchase_target target current q h positive = ground arith

negate_nonpos : (m n : ℕ) → negate m ≡ pos n → n ≡ 0
negate_nonpos zero n h = pos_injective (sym h)
negate_nonpos (suc m) n h = cc

-- A positive target is a share of a positive equity.
target_fits :
    (equity : ℤ) (pct price n : ℕ)
    → target_quantity equity pct price ≡ pos n
    → 0 < n
    → (e : ℕ) × (equity ≡ pos e) × (n * (1_000_000 * price) ≤ e * pct)
target_fits (pos e) pct price n h positive =
    let quotient : n ≡ e * pct / (1_000_000 * price) = pos_injective (sym h) in
    (e, refl, rw quotient (div-mul-le_self (e * pct) (1_000_000 * price)))
target_fits (negsuc e) pct price n h positive =
    let nothing = negate_nonpos _ n h in absurd (omega arith)

close_fits :
    (s : Settings) (db : Session) (symbol pct n : ℕ) (candle : Candle)
    → latest_candle db symbol ≡ some candle
    → quantity_at_close s db pct candle.close_price ≡ ok (pos n)
    → 0 < n
    → FitsEquity s db symbol pct n
unfolding quantity_at_close
close_fits s db symbol pct n candle quoted h positive =
    elim (Bool-cases (candle.close_price == 0)) [
      | inl worthless ↦
          let nothing = pos_injective (ok_injective (rw worthless at h)) in absurd (omega arith)
      | inr priced ↦
          let (equity, funded, e) = >>=-eq-ok (equity_for s db) _ (rw priced at h) in
          let (x, e', within) =
            target_fits equity pct candle.close_price n (ok_injective e) positive in
          record {
            candle = candle;
            equity = x;
            quoted = quoted;
            funded = rw (← e') funded;
            within = within;
          }
    ]

on_fits :
    (s : Settings) (db : Session) (symbol pct n : ℕ) (o : Option Candle)
    → latest_candle db symbol ≡ o
    → quantity_on s db pct o ≡ ok (pos n)
    → 0 < n
    → FitsEquity s db symbol pct n
unfolding quantity_on
on_fits s db symbol pct n none quoted h positive =
    let nothing = pos_injective (ok_injective h) in absurd (omega arith)
on_fits s db symbol pct n (some candle) quoted h positive =
    close_fits s db symbol pct n candle quoted h positive

symbol_fits :
    (s : Settings) (db : Session) (symbol pct n : ℕ)
    → target_quantity_for s db symbol pct ≡ ok (pos n)
    → 0 < n
    → FitsEquity s db symbol pct n
unfolding target_quantity_for
symbol_fits s db symbol pct n h positive = elim (Bool-cases (pct == 0)) [
  | inl nothing ↦
      let none_left = pos_injective (ok_injective (rw nothing at h)) in absurd (omega arith)
  | inr share ↦ on_fits s db symbol pct n (latest_candle db symbol) refl (rw share at h) positive
]

-- A purchase that is approved for a positive quantity is for a symbol with a candle, and the units
-- held and bought are worth, at its close, at most the approved percentage of the equity.
pub purchase_within_equity :
    (s : Settings) (db : Session) (symbol current pct q : ℕ)
    → quantity_for buy s db symbol current pct ≡ ok q
    → 0 < q
    → FitsEquity s db symbol pct (current + q)
unfolding quantity_for
purchase_within_equity s db symbol current pct q h positive =
    let (target, found, e) = >>=-eq-ok (target_quantity_for s db symbol pct) _ h in
    let reached = purchase_target target current q (ok_injective e) positive in
    symbol_fits s db symbol pct (current + q)
      (subst (λ t. target_quantity_for s db symbol pct ≡ ok t) reached found) (omega arith)
