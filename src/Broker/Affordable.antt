-- ===== src/Broker/Affordable.antt =====
-- `_affordable_quantity`.
pub mod Optimal
use taurus_agent.Base.{
  ℕ, zero, suc, ◌+◌, ◌*◌, min, Bool, true, false, List, [], ◌∷◌, if◌then◌else◌, sum_by,
}
use taurus_agent.Base.Int.{ℤ, pos, leb_ℤ}
use taurus_agent.Money.Context.{scale_amount}
use taurus_agent.Execution.{OrderSide, buy, sell, PaperFill}
use taurus_agent.Broker.State.{Positions, held}

-- What a fill takes from the cash when it is bought.
abbrev pub fill_debit : PaperFill → ℕ
fill_debit f = f.gross_value_inr + f.cost_inr

-- The debit of the fills, scaled to `affordable` of `requested` units.
unfoldable pub scaled_debit : List PaperFill → (requested affordable : ℕ) → ℕ
unfolding scale_amount
scaled_debit fills requested affordable =
    sum_by
      (λ f.
        scale_amount f.gross_value_inr affordable requested
        + scale_amount f.cost_inr affordable requested)
      fills

-- `while affordable > 0`, counting down by one.
unfoldable pub count_down : List PaperFill → (requested : ℕ) → ℤ → ℕ → ℕ
unfolding scaled_debit
count_down fills requested cash zero = 0
count_down fills requested cash (suc affordable) =
    elim (leb_ℤ (pos (scaled_debit fills requested (suc affordable))) cash) [
      | true ↦ suc affordable
      | false ↦ count_down fills requested cash affordable
    ]

-- `_affordable_quantity`
unfoldable pub affordable_quantity :
    OrderSide → (requested : ℕ) → List PaperFill → ℤ → Positions → (symbol : ℕ) → ℕ
unfolding count_down
affordable_quantity sell requested fills cash positions symbol =
    min requested (held symbol positions)
affordable_quantity buy requested fills cash positions symbol =
    let scaled = count_down fills requested cash requested in
    if leb_ℤ (pos (sum_by fill_debit fills)) cash then requested else scaled
