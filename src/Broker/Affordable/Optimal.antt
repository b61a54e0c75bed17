-- ===== src/Broker/Affordable/Optimal.antt =====
-- What `_affordable_quantity` promises of its result.
use native.Mathlib.Decide.{ℕ_discrete}
use taurus_agent.Base.{
  ℕ, zero, suc, ◌≤◌, ◌<◌, ◌≡◌, refl, ◌⊎◌, inl, inr, true, false, List, arith, Bool-cases, sum_by,
}
use taurus_agent.Base.Int.{ℤ, pos, leb_ℤ, ◌≤ℤ◌}
use taurus_agent.Execution.{OrderSide, buy, sell, PaperFill}
use taurus_agent.Broker.State.{Positions, held}
use taurus_agent.Broker.Affordable.{fill_debit, scaled_debit, count_down, affordable_quantity}

-- `r` of `n` units can be paid for, and no larger number can.
pub record IsLargest (fills : List PaperFill) (requested : ℕ) (cash : ℤ) (n r : ℕ) : Type 0 where
  pub bounded : r ≤ n
  pub paid : 0 < r → pos (scaled_debit fills requested r) ≤ℤ cash
  pub largest : (k : ℕ) → r < k → k ≤ n → ¬ (pos (scaled_debit fills requested k) ≤ℤ cash)

module _ (fills : List PaperFill) (requested : ℕ) (cash : ℤ) where
  all_fit :
      (n : ℕ)
      → leb_ℤ (pos (scaled_debit fills requested (suc n))) cash ≡ true
      → IsLargest fills requested cash (suc n) (suc n)
  all_fit n fits = record {
    bounded = omega arith;
    paid = λ h. ground arith;
    largest = λ k h h' p. omega arith;
  }

  -- One more unit that is not affordable leaves the answer as it was.
  one_more :
      (n r : ℕ)
      → leb_ℤ (pos (scaled_debit fills requested (suc n))) cash ≡ false
      → IsLargest fills requested cash n r
      → IsLargest fills requested cash (suc n) r
  one_more n r short h = record {
    bounded = omega arith;
    paid = h.paid;
    largest = λ k above below p. elim (ℕ_discrete k (suc n)) [
      | yes e ↦ ground arith
      | no e ↦ h.largest k above (omega arith) p
    ];
  }

  pub count_down-IsLargest :
      (n : ℕ) → IsLargest fills requested cash n (count_down fills requested cash n)
  unfolding count_down
  count_down-IsLargest zero = record {
    bounded = omega arith;
    paid = λ h. absurd (omega arith);
    largest = λ k h h' p. omega arith;
  }
  count_down-IsLargest (suc n) =
      elim (Bool-cases (leb_ℤ (pos (scaled_debit fills requested (suc n))) cash)) [
        | inl fits ↦ rw (fits, count_down) (all_fit n fits)
        | inr short ↦
            rw (short, count_down)
              (one_more n (count_down fills requested cash n) short (count_down-IsLargest n))
      ]

-- What the result `r` means for each side.
abbrev pub Affords :
    OrderSide → (requested symbol : ℕ) → List PaperFill → ℤ → Positions → ℕ → Type 0
Affords buy requested symbol fills cash positions r =
    ((r ≡ requested) × (pos (sum_by fill_debit fills) ≤ℤ cash))
    ⊎ ((¬ (pos (sum_by fill_debit fills) ≤ℤ cash)) × IsLargest fills requested cash requested r)
Affords sell requested symbol fills cash positions r =
    (r ≤ requested) × (r ≤ held symbol positions) × ((r ≡ requested) ⊎ (r ≡ held symbol positions))

-- A purchase of `requested` units is affordable whole, if the fills' debit is within the cash; or
-- else it is cut to the largest number of units whose scaled debit is within the cash. A sale is
-- for the smaller of the requested and the held quantity.
pub affordable_quantity_optimal :
    (side : OrderSide) (requested symbol : ℕ) (fills : List PaperFill) (cash : ℤ)
    (positions : Positions)
    → Affords side requested symbol fills cash positions
        (affordable_quantity side requested fills cash positions symbol)
unfolding affordable_quantity
affordable_quantity_optimal buy requested symbol fills cash positions =
    elim (Bool-cases (leb_ℤ (pos (sum_by fill_debit fills)) cash)) [
      | inl fits ↦ rw fits (inl (refl, ground arith))
      | inr short ↦
          rw short (inr (λ p. ground arith, count_down-IsLargest fills requested cash requested))
    ]
affordable_quantity_optimal sell requested symbol fills cash positions =
    (omega arith, omega arith, omega arith)
