-- ===== src/Money/Ratio.antt =====
-- The quotients of the decimal context: a part of a whole is no more than all of it.
use native.Mathlib.Nat.{pow-succ', one-le-pow, mul-le-mul}
use taurus_agent.Base.{
  ℕ, zero, suc, ◌+◌, ◌*◌, ◌^◌, ◌≤◌, ◌<◌, ◌≡◌, refl, ap, Bool, true, false, ltb, ◌==◌, arith,
  Bool-cases, inl, inr,
}
use taurus_agent.Money.Context.{round_half_even, places, round_context, max_coefficient}
use taurus_agent.Money.Paise.{quantize_ratio, half_even_mono, half_even_exact}

-- Rounding stays below a whole multiple.
half_even_within : (c q unit : ℕ) → 0 < unit → c ≤ q * unit → round_half_even c unit ≤ q
half_even_within c q unit l h =
    omega (arith, half_even_mono c (q * unit) unit l h, half_even_exact q unit l)

cut_within : (c q unit : ℕ) → 0 < unit → c ≤ q * unit → round_half_even c unit * unit ≤ q * unit
cut_within c q unit l h = let le = half_even_within c q unit l h in grind arith

abbrev branch : Bool → (short long : ℕ) → ℕ
branch b short long = elim b [ true ↦ short | false ↦ long ]

context_fits :
    (fuel unit c : ℕ)
    → ltb c (max_coefficient * unit) ≡ true
    → round_context (suc fuel) unit c ≡ round_half_even c unit * unit
unfolding round_context
context_fits fuel unit c h =
    ap (λ (b : Bool). branch b (round_half_even c unit * unit) (round_context fuel (10 * unit) c)) h

context_long :
    (fuel unit c : ℕ)
    → ltb c (max_coefficient * unit) ≡ false
    → round_context (suc fuel) unit c ≡ round_context fuel (10 * unit) c
unfolding round_context
context_long fuel unit c h =
    ap (λ (b : Bool). branch b (round_half_even c unit * unit) (round_context fuel (10 * unit) c)) h

context_zero : (unit c : ℕ) → round_context zero unit c ≡ round_half_even c unit * unit
unfolding round_context
context_zero unit c = refl

-- A coefficient that is cut to 28 digits stays below the multiples of the unit by a short number
-- and a power of ten.
context_within :
    (fuel unit j scale c : ℕ)
    → 0 < unit
    → scale < max_coefficient
    → c ≤ 10 ^ j * scale * unit
    → round_context fuel unit c ≤ 10 ^ j * scale * unit
context_within zero unit j scale c l short h =
    omega (arith, context_zero unit c, cut_within c (10 ^ j * scale) unit l h)
context_within (suc fuel) unit zero scale c l short h =
    elim (Bool-cases (ltb c (max_coefficient * unit))) [
      | inl fits ↦
          omega (arith, context_fits fuel unit c fits, cut_within c (10 ^ zero * scale) unit l h)
      | inr long ↦
          let more : (scale + 1) * unit ≤ max_coefficient * unit =
            mul-le-mul (omega arith) (omega arith) in
          absurd (ground arith)
    ]
context_within (suc fuel) unit (suc j) scale c l short h =
    elim (Bool-cases (ltb c (max_coefficient * unit))) [
      | inl fits ↦
          omega (arith, context_fits fuel unit c fits, cut_within c (10 ^ suc j * scale) unit l h)
      | inr long ↦
          let same : 10 ^ suc j * scale * unit ≡ 10 ^ j * scale * (10 * unit) =
            rw (pow-succ' 10 j) (grind arith) in
          let le = context_within fuel (10 * unit) j scale c (omega arith) short (omega arith) in
          omega (arith, context_long fuel unit c long)
    ]

rounded_within :
    (fuel e scale c : ℕ)
    → scale < max_coefficient
    → c ≤ 10 ^ e * scale
    → round_half_even (round_context fuel 1 c) (10 ^ e) ≤ scale
rounded_within fuel e scale c short h =
    let cut = context_within fuel 1 e scale c (omega arith) short (omega arith) in
    half_even_within (round_context fuel 1 c) scale (10 ^ e) (one-le-pow e 10 (omega arith))
      (grind arith)

quotient_within : (n d e : ℕ) → 0 < d → n ≤ d → round_half_even (n * 10 ^ e) d ≤ 10 ^ e
quotient_within n d e l h =
    let up : n * 10 ^ e ≤ d * 10 ^ e = mul-le-mul h (omega arith) in
    half_even_within (n * 10 ^ e) (10 ^ e) d l (omega arith)

pub quantize_ratio-le :
    (n d scale : ℕ) → scale < max_coefficient → n ≤ d → quantize_ratio n d scale ≤ scale
unfolding quantize_ratio
quantize_ratio-le n d scale short h = elim (Bool-cases (n == 0)) [
  | inl none_of ↦ rw none_of (omega arith)
  | inr some_of ↦
      let e = places (28 + d) n d in
      let part = quotient_within n d e (ground arith) h in
      let scaled : round_half_even (n * 10 ^ e) d * scale ≤ 10 ^ e * scale =
        mul-le-mul part (omega arith) in
      rw some_of (rounded_within 28 e scale _ short scaled)
]
