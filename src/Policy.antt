-- ===== src/Policy.antt =====
-- portfolio/money_management.py: how `MoneyManagementPolicy` is validated.
pub mod Schema
pub mod Known
pub mod Defaults
pub mod Valid
pub mod Stable
pub mod Sections
use taurus_agent.Base.{
  ℕ, ◌+◌, Bool, true, false, not, ◌&&◌, ◌||◌, List, [], ◌∷◌, ◌++◌, ◌==◌, if◌then◌else◌, any_of,
  keep_if, map, sum_by, Result, ok, err, raise_if, ◌>>=◌, ◌>>◌, sleeves_missing, sleeves_repeated,
  weights_unbalanced, cash_buffer_missing, mapping_unknown, capacity_unknown,
  cash_buffer_borrowable, borrower_borrowable,
}
use Schema.{
  SleevePolicy, StrategySleeveMapping, MoneyManagementPolicy, RebalanceCapacityPolicy, cash_buffer,
  active_strategy,
}

abbrev pub is_member : ℕ → List ℕ → Bool
is_member x = any_of (λ y. y == x)

-- `len(ids) != len(set(ids))`
abbrev pub has_repeated : List ℕ → Bool
has_repeated [] = false
has_repeated (x ∷ xs) = is_member x xs || has_repeated xs

abbrev pub sleeve_ids : MoneyManagementPolicy → List ℕ
sleeve_ids p = map (λ s. s.sleeve_id) p.sleeves

-- The sleeves that the mappings name.
abbrev pub mapped_sleeves : MoneyManagementPolicy → List ℕ
mapped_sleeves p = map (λ m. m.sleeve_id) p.strategy_mappings

abbrev pub is_empty : List ℕ → Bool
is_empty [] = true
is_empty (_ ∷ _) = false

-- Some entry is not among the known ones.
abbrev pub any_unknown : (known : List ℕ) → List ℕ → Bool
any_unknown known = any_of (λ x. not (is_member x known))

-- The borrowers, with their default.
unfoldable pub borrower_ids : (known explicit : List ℕ) → List ℕ
borrower_ids known explicit =
    if is_empty explicit && is_member active_strategy known then active_strategy ∷ [] else explicit

-- The borrowable sleeves, with their default.
unfoldable pub borrowable_ids : (known borrowers explicit : List ℕ) → List ℕ
borrowable_ids known borrowers explicit =
    if is_empty explicit
    then keep_if (λ x. not (x == cash_buffer) && not (is_member x borrowers)) known
    else explicit

-- `explicit_repay or borrowable_ids`
unfoldable pub repay_ids : (borrowable explicit : List ℕ) → List ℕ
repay_ids borrowable explicit = if is_empty explicit then borrowable else explicit

-- The policy with the defaults of its capacity.
unfoldable pub with_defaults : MoneyManagementPolicy → MoneyManagementPolicy
with_defaults p =
    let c = p.rebalance_capacity in
    let borrowers = borrower_ids (sleeve_ids p) c.borrower_sleeve_ids in
    let borrowable = borrowable_ids (sleeve_ids p) borrowers c.borrowable_sleeve_ids in
    record p {
      rebalance_capacity = record c {
        borrowable_sleeve_ids = borrowable;
        borrower_sleeve_ids = borrowers;
        repay_priority_sleeve_ids = repay_ids borrowable c.repay_priority_sleeve_ids;
      };
    }

-- `require_sleeves` and `validate_policy`.
unfoldable pub validate_policy : MoneyManagementPolicy → Result MoneyManagementPolicy
validate_policy p = do
  let known = sleeve_ids p
  let c = p.rebalance_capacity
  raise_if (is_empty known) sleeves_missing
  raise_if (has_repeated known) sleeves_repeated
  raise_if (not (sum_by (λ s. s.target_weight_pct) p.sleeves == 1_000_000)) weights_unbalanced
  raise_if (not (is_member cash_buffer known)) cash_buffer_missing
  raise_if (any_unknown known (mapped_sleeves p)) mapping_unknown
  raise_if
      (any_unknown known
        (c.borrowable_sleeve_ids ++ c.borrower_sleeve_ids ++ c.repay_priority_sleeve_ids))
      capacity_unknown
  raise_if (is_member cash_buffer c.borrowable_sleeve_ids) cash_buffer_borrowable
  raise_if (any_of (λ x. is_member x c.borrower_sleeve_ids) c.borrowable_sleeve_ids)
      borrower_borrowable
  ok (with_defaults p)
