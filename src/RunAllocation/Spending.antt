-- ===== src/RunAllocation/Spending.antt =====
-- The money that the selected purchases of a ledger take from the cash of a run.
use mathlib.Core.Path.{subst}
use taurus_agent.Base.{
  ℕ, ◌+◌, ◌-◌, ◌≤◌, ◌<◌, ◌≡◌, ◌⊎◌, refl, sym, ◌∙◌, ap, [], ◌∷◌, if◌then◌else◌, sum_by,
  sum_by-append, arith, inl, inr,
}
use taurus_agent.Base.Int.{ℤ, pos, pos_part, neg_part, ◌-ℤ◌, -ℤ_parts}
use taurus_agent.Money.Paise.{
  quantize_paise, quantize_bounds, IsWhole, quantize-IsWhole, IsWhole-sub, quantize_whole,
}
use taurus_agent.Risk.{TraderProposal, AllocationDecision, AllocationStatus}
use taurus_agent.Allocation.Bounds.{one_part, quantize_zero}
use taurus_agent.RunAllocation.Input.{RunAllocationInput, AllocationLedgerEntry}
use taurus_agent.RunAllocation.Pending.{cash_after}
use taurus_agent.RunAllocation.Status.{is_selected, ledger_entry}
use taurus_agent.RunAllocation.Run.{RunState, record_outcome}

-- What a ledger's selected purchases cost at the last close.
abbrev pub spend : AllocationLedgerEntry → ℕ
spend e = if e.selected then e.approved_notional_inr else 0

abbrev pub spent : RunState → ℕ
spent s = sum_by spend s.ledger

whole_positive : (n : ℕ) → IsWhole n → 0 < n → 100 ≤ n
whole_positive n (k, e) h = omega arith

-- Whole paise that are within half a paisa are within.
whole_within : (a b : ℕ) → IsWhole a → IsWhole b → a ≤ b + 50 → a ≤ b
whole_within a b (k, e) (l, e') h = omega arith

IsWhole-add : (a b : ℕ) → IsWhole a → IsWhole b → IsWhole (a + b)
IsWhole-add a b (k, e) (l, e') = (k + l, omega arith)

-- The cash after a first purchase, from cash that may hold parts of a paisa.
first_purchase :
    (cash : ℤ) (n : ℕ)
    → IsWhole n
    → 0 < n
    → n + neg_part cash ≤ pos_part cash + 50
    → (neg_part cash ≡ 0) × (pos_part (cash_after cash n) + n ≤ pos_part cash + 50)
unfolding cash_after
first_purchase cash n w l h =
    let large = whole_positive n w l in
    let left = cash -ℤ pos n in
    let (low, high) = quantize_bounds (pos_part left) 1 (omega arith) in
    let parts = -ℤ_parts cash (pos n) in
    elim (one_part cash) [
      | inl poor ↦ absurd (omega arith)
      | inr rich ↦ elim (one_part left) [
        | inl over ↦
            let e : quantize_paise (pos_part left) 1 ≡ 0 = rw over quantize_zero in
            (rich, omega arith)
        | inr under ↦ (rich, omega arith)
      ]
    ]

-- The cash after a later purchase, from whole paise.
later_purchase :
    (cash : ℤ) (n : ℕ)
    → IsWhole n
    → IsWhole (pos_part cash)
    → neg_part cash ≡ 0
    → n ≤ pos_part cash
    → pos_part (cash_after cash n) + n ≡ pos_part cash
unfolding cash_after
later_purchase cash n w w' e h =
    let left = cash -ℤ pos n in
    let parts = -ℤ_parts cash (pos n) in
    let value : pos_part left ≡ pos_part cash - n = elim (one_part left) [
      | inl over ↦ omega arith
      | inr under ↦ omega arith
    ] in
    omega (
      arith,
      ap (λ (t : ℕ). quantize_paise t 1) value,
      quantize_whole (pos_part cash - n) (IsWhole-sub (pos_part cash) n w' w),
    )

after-IsWhole :
    (cash : ℤ) (n : ℕ) → IsWhole (pos_part (cash_after cash n)) × (neg_part (cash_after cash n) ≡ 0)
unfolding cash_after
after-IsWhole cash n = (quantize-IsWhole (pos_part (cash -ℤ pos n)) 1, refl)

module _ (first : ℤ) (kept : ℕ) where
  -- Nothing is spent, or what is spent leaves the cash buffer of the first cash.
  pub record IsSpending (s : RunState) : Type 0 where
    pub whole : IsWhole (pos_part s.available_cash)
    pub solvent : neg_part s.available_cash ≡ 0
    pub balance : pos_part s.available_cash + spent s ≤ pos_part first + 50
    pub rich : neg_part first ≡ 0
    pub buffer : kept + spent s ≤ pos_part first + 50

  abbrev pub IsAccounted : RunState → Type 0
  IsAccounted s = ((spent s ≡ 0) × (s.available_cash ≡ first)) ⊎ IsSpending s

  -- One more purchase.
  pub purchase-IsSpending :
      (s s' : RunState) (n : ℕ)
      → IsWhole n
      → IsWhole kept
      → 0 < n
      → kept + n + neg_part s.available_cash ≤ pos_part s.available_cash + 50
      → s'.available_cash ≡ cash_after s.available_cash n
      → spent s' ≡ spent s + n
      → IsAccounted s
      → IsSpending s'
  purchase-IsSpending s s' n w wk l room cash paid (inl (nothing, untouched)) =
      let (rich, balance) = first_purchase s.available_cash n w l (omega arith) in
      let (whole, solvent) = after-IsWhole s.available_cash n in
      let same = ap pos_part cash in
      let p = ap pos_part untouched in
      let m = ap neg_part untouched in
      record {
        whole = subst IsWhole (sym same) whole;
        solvent = ap neg_part cash ∙ solvent;
        balance = omega arith;
        rich = ap neg_part (sym untouched) ∙ rich;
        buffer = omega arith;
      }
  purchase-IsSpending s s' n w wk l room cash paid (inr before) =
      let fits =
        whole_within (kept + n) (pos_part s.available_cash) (IsWhole-add kept n wk w) before.whole
          (omega (arith, before.solvent)) in
      let balance = later_purchase s.available_cash n w before.whole before.solvent (omega arith) in
      let (whole, solvent) = after-IsWhole s.available_cash n in
      let same = ap pos_part cash in
      record {
        whole = subst IsWhole (sym same) whole;
        solvent = ap neg_part cash ∙ solvent;
        balance = omega (arith, before.balance);
        rich = before.rich;
        buffer = omega (arith, before.balance);
      }

  -- A step that selects nothing and leaves the cash.
  pub idle-IsAccounted :
      (s s' : RunState)
      → s'.available_cash ≡ s.available_cash
      → spent s' ≡ spent s
      → IsAccounted s
      → IsAccounted s'
  idle-IsAccounted s s' cash same (inl (nothing, untouched)) = inl (omega arith, cash ∙ untouched)
  idle-IsAccounted s s' cash same (inr before) =
      let p = ap pos_part cash in
      inr (record {
        whole = subst IsWhole (sym p) before.whole;
        solvent = ap neg_part cash ∙ before.solvent;
        rich = before.rich;
        balance = omega (arith, before.balance);
        buffer = omega (arith, before.buffer);
      })

spend-ledger_entry :
    (i : RunAllocationInput) (p : TraderProposal) (d : AllocationDecision)
    (status : AllocationStatus)
    → spend (ledger_entry i p d status)
      ≡ (if is_selected status then d.approved_notional_inr else 0)
unfolding ledger_entry
spend-ledger_entry i p d status = refl

pub spent-record_outcome :
    (i : RunAllocationInput) (p : TraderProposal) (d : AllocationDecision)
    (status : AllocationStatus) (s : RunState)
    → spent (record_outcome i p d status s)
      ≡ spent s + (if is_selected status then d.approved_notional_inr else 0)
spent-record_outcome i p d status s = omega (
  arith,
  sum_by-append spend s.ledger (ledger_entry i p d status ∷ []),
  spend-ledger_entry i p d status,
)
