-- ===== src/Money/Paise.antt =====
-- `value.quantize(Decimal("0.01"))` and `value.quantize(Decimal("0.0001"))` in the default context,
-- which rounds halves to even: `_money` of the modules under portfolio/.
use native.Mathlib.Nat.{
  div-add-mod', mod-lt, le-div_iff_mul-le, div-mul-le_self, mul-div_cancel, mul-mod_left,
}
use native.Mathlib.Decide.{dec_lt}
use taurus_agent.Base.{
  ℕ, zero, suc, ◌+◌, ◌-◌, ◌*◌, ◌/◌, ◌%◌, ◌^◌, ◌≤◌, ◌<◌, ◌≡◌, ◌⊎◌, inl, inr, refl, arith, min, max,
  ◌==◌, ltb, if◌then◌else◌, ap,
}
use taurus_agent.Money.Context.{round_half_even, places, round_context}

-- n / d ticks to the nearest paisa, which has a hundred ticks.
unfoldable pub quantize_paise : ℕ → ℕ → ℕ
quantize_paise n d = round_half_even n (d * 100) * 100

-- `n / d` in the default context, times `scale`, to the nearest whole number.
unfoldable pub quantize_ratio : ℕ → ℕ → ℕ → ℕ
unfolding places round_half_even round_context
quantize_ratio n d scale =
    let e = places (28 + d) n d in
    if n == 0
    then 0
    else round_half_even (round_context 28 1 (round_half_even (n * 10 ^ e) d * scale)) (10 ^ e)

-- `max(lower, min(upper, value))`
abbrev pub clamp : ℕ → ℕ → ℕ → ℕ
clamp value lower upper = max lower (min upper value)

pub div_mono : (n m k : ℕ) → n ≤ m → n / k ≤ m / k
div_mono n m zero h = omega arith
div_mono n m (suc k) h =
    (le-div_iff_mul-le (omega arith)).1 (omega (arith, div-mul-le_self n (suc k)))

-- The rounded value is the quotient, or the one above it.
half_even_near : (n d : ℕ) → (n / d ≤ round_half_even n d) × (round_half_even n d ≤ n / d + 1)
unfolding round_half_even
half_even_near n d = ground (arith, mod-lt (n / d) {m = 2} (omega arith))

-- A half goes to the even neighbour.
abbrev half_choice : (q r d : ℕ) → ℕ
half_choice q r d = if ltb (2 * r) d then q else if ltb d (2 * r) then q + 1 else q + q % 2

half_even_choice : (n d : ℕ) → round_half_even n d ≡ half_choice (n / d) (n % d) d
unfolding round_half_even
half_even_choice n d = refl

compare_cases : (p : ℕ) → p < 2 → (p ≡ 0) ⊎ (p ≡ 1)
compare_cases p h = ground arith

by_size :
    (q p r d : ℕ)
    → (p ≡ 0) ⊎ (p ≡ 1)
    → (((if ltb (2 * r) d then q else if ltb d (2 * r) then q + 1 else q + p) ≡ q) × (2 * r ≤ d))
      ⊎ (((if ltb (2 * r) d then q else if ltb d (2 * r) then q + 1 else q + p) ≡ q + 1)
          × (d ≤ 2 * r))
by_size q p r d h = ground arith

choice_cases :
    (q r d : ℕ)
    → ((half_choice q r d ≡ q) × (2 * r ≤ d)) ⊎ ((half_choice q r d ≡ q + 1) × (d ≤ 2 * r))
choice_cases q r d = elim (compare_cases (q % 2) (mod-lt q {m = 2} (omega arith))) [
  | inl even ↦ rw even (by_size q 0 r d (inl refl))
  | inr odd ↦ rw odd (by_size q 1 r d (inr refl))
]

choice_bounds :
    (q r d : ℕ)
    → r < d
    → (2 * (half_choice q r d * d) ≤ 2 * (q * d + r) + d)
      × (2 * (q * d + r) ≤ 2 * (half_choice q r d * d) + d)
choice_bounds q r d h = elim (choice_cases q r d) [
  | inl (e, low) ↦ rw e (omega arith, omega arith)
  | inr (e, high) ↦ rw e (omega arith, omega arith)
]

choice_mono : (q r r' d : ℕ) → r ≤ r' → half_choice q r d ≤ half_choice q r' d
choice_mono q r r' d h = ground (arith, mod-lt q {m = 2} (omega arith))

-- The rounded value is within half a unit of the exact one.
pub half_even_bounds :
    (n d : ℕ)
    → 0 < d
    → (2 * (round_half_even n d * d) ≤ 2 * n + d) × (2 * n ≤ 2 * (round_half_even n d * d) + d)
half_even_bounds n d h =
    let (low, high) = choice_bounds (n / d) (n % d) d (mod-lt n h) in
    rw (half_even_choice n d) (omega (arith, div-add-mod' n d), omega (arith, div-add-mod' n d))

pub half_even_exact : (n d : ℕ) → 0 < d → round_half_even (n * d) d ≡ n
unfolding round_half_even
half_even_exact n d h = rw (mul-div_cancel n h, mul-mod_left n d) (ground arith)

pub half_even_mono : (n m d : ℕ) → 0 < d → n ≤ m → round_half_even n d ≤ round_half_even m d
half_even_mono n m d pos h =
    let q : n / d ≤ m / d = div_mono n m d h in
    elim (dec_lt (n / d) (m / d)) [
      | yes less ↦ omega (arith, half_even_near n d, half_even_near m d)
      | no same ↦
          let e : n / d ≡ m / d = omega arith in
          let t : n / d * d ≡ m / d * d = ap (λ (k : ℕ). k * d) e in
          let r : n % d ≤ m % d = omega (arith, div-add-mod' n d, div-add-mod' m d) in
          rw (half_even_choice n d, half_even_choice m d, e)
            (choice_mono (m / d) (n % d) (m % d) d r)
    ]

-- Rounding to paise keeps the order, and keeps whole paise.
pub quantize_mono : (n m d : ℕ) → 0 < d → n ≤ m → quantize_paise n d ≤ quantize_paise m d
unfolding quantize_paise
quantize_mono n m d pos h = omega (arith, half_even_mono n m (d * 100) (omega arith) h)

pub quantize_bounds :
    (n d : ℕ)
    → 0 < d
    → (quantize_paise n d * d ≤ n + d * 50) × (n ≤ quantize_paise n d * d + d * 50)
unfolding quantize_paise
quantize_bounds n d h =
    let (low, high) = half_even_bounds n (d * 100) (omega arith) in (grind arith, grind arith)

-- A whole number of paise.
abbrev pub IsWhole : ℕ → Type 0
IsWhole n = (k : ℕ) × (n ≡ k * 100)

pub quantize-IsWhole : (n d : ℕ) → IsWhole (quantize_paise n d)
unfolding quantize_paise
quantize-IsWhole n d = (round_half_even n (d * 100), refl)

pub IsWhole-mul : (n m : ℕ) → IsWhole n → IsWhole (n * m)
IsWhole-mul n m (k, e) = (k * m, rw e (omega arith))

pub IsWhole-sub : (n m : ℕ) → IsWhole n → IsWhole m → IsWhole (n - m)
IsWhole-sub n m (k, e) (l, e') = (k - l, rw (e, e') (omega arith))

pub quantize_whole : (n : ℕ) → IsWhole n → quantize_paise n 1 ≡ n
unfolding quantize_paise
quantize_whole n (k, e) =
    let r : round_half_even (k * 100) 100 ≡ k = half_even_exact k 100 (omega arith) in
    rw e (rw r refl)

pub quantize_scaled : (n d : ℕ) → 0 < d → IsWhole n → quantize_paise (n * d) d ≡ n
unfolding quantize_paise
quantize_scaled n d pos (k, e) =
    let r : round_half_even (k * (d * 100)) (d * 100) ≡ k =
      half_even_exact k (d * 100) (omega arith) in
    let t : k * 100 * d ≡ k * (d * 100) = omega arith in rw (e, t) (rw r refl)
