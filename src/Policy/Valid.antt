-- ===== src/Policy/Valid.antt =====
-- What a policy that `validate_policy` returns promises.
use mathlib.Core.Path.{subst}
use taurus_agent.Base.{
  ◌≡◌, true, false, not, ◌++◌, ◌==◌, any_of, sum_by, ok, raise_if-eq-ok, ok_injective, arith,
  sleeves_missing, sleeves_repeated, weights_unbalanced, cash_buffer_missing, mapping_unknown,
  capacity_unknown, cash_buffer_borrowable, borrower_borrowable,
}
use taurus_agent.Policy.Schema.{cash_buffer, MoneyManagementPolicy}
use taurus_agent.Policy.{
  is_member, has_repeated, sleeve_ids, is_empty, any_unknown, borrower_ids, with_defaults,
  validate_policy, mapped_sleeves,
}
use taurus_agent.Policy.Known.{AreKnown, Disjoint, none_of, all_known, unknown_append}
use taurus_agent.Policy.Defaults.{
  borrower_ids-AreKnown, borrowable_ids-AreKnown, repay_ids-AreKnown, borrowable_ids_reserve,
  explicit-Disjoint, borrowable_ids-Disjoint, IsDeclared,
}

-- What the checks of `validate_policy` established.
pub record IsChecked (p : MoneyManagementPolicy) : Type 0 where
  pub distinct : has_repeated (sleeve_ids p) ≡ false
  pub balanced : sum_by (λ s. s.target_weight_pct) p.sleeves ≡ 1_000_000
  pub reserve : is_member cash_buffer (sleeve_ids p) ≡ true
  pub mappings : any_unknown (sleeve_ids p) (mapped_sleeves p) ≡ false
  pub capacity :
      any_unknown (sleeve_ids p) (
        p.rebalance_capacity.borrowable_sleeve_ids ++ p.rebalance_capacity.borrower_sleeve_ids
        ++ p.rebalance_capacity.repay_priority_sleeve_ids)
      ≡ false
  pub no_reserve : is_member cash_buffer p.rebalance_capacity.borrowable_sleeve_ids ≡ false
  pub apart :
      any_of
        (λ x. is_member x p.rebalance_capacity.borrower_sleeve_ids)
        p.rebalance_capacity.borrowable_sleeve_ids
      ≡ false

pub validate_policy-checks :
    (p : MoneyManagementPolicy) {p' : MoneyManagementPolicy}
    → validate_policy p ≡ ok p'
    → IsChecked p × (with_defaults p ≡ p')
unfolding validate_policy
validate_policy-checks p h =
    let known = sleeve_ids p in
    let c = p.rebalance_capacity in
    let total = sum_by (λ s. s.target_weight_pct) p.sleeves in
    let capacity_ids =
      c.borrowable_sleeve_ids ++ c.borrower_sleeve_ids ++ c.repay_priority_sleeve_ids in
    let (_, h) = raise_if-eq-ok (is_empty known) sleeves_missing _ h in
    let (distinct, h) = raise_if-eq-ok (has_repeated known) sleeves_repeated _ h in
    let (balanced, h) = raise_if-eq-ok (not (total == 1_000_000)) weights_unbalanced _ h in
    let (reserve, h) = raise_if-eq-ok (not (is_member cash_buffer known)) cash_buffer_missing _ h in
    let (mappings, h) = raise_if-eq-ok (any_unknown known (mapped_sleeves p)) mapping_unknown _ h in
    let (capacity, h) = raise_if-eq-ok (any_unknown known capacity_ids) capacity_unknown _ h in
    let (no_reserve, h) =
      raise_if-eq-ok (is_member cash_buffer c.borrowable_sleeve_ids) cash_buffer_borrowable _ h in
    let (apart, h) =
      raise_if-eq-ok (any_of (λ x. is_member x c.borrower_sleeve_ids) c.borrowable_sleeve_ids)
        borrower_borrowable _ h in
    (
      record {
        distinct = distinct;
        balanced = ground arith;
        reserve = ground arith;
        mappings = mappings;
        capacity = capacity;
        no_reserve = no_reserve;
        apart = apart;
      },
      ok_injective h,
    )

-- What a policy that passed validation satisfies.
pub record IsPolicy (p : MoneyManagementPolicy) : Type 0 where
  pub distinct : has_repeated (sleeve_ids p) ≡ false
  pub balanced : sum_by (λ s. s.target_weight_pct) p.sleeves ≡ 1_000_000
  pub reserve : is_member cash_buffer (sleeve_ids p) ≡ true
  pub mappings : AreKnown (sleeve_ids p) (mapped_sleeves p)
  pub borrowable : AreKnown (sleeve_ids p) p.rebalance_capacity.borrowable_sleeve_ids
  pub borrowers : AreKnown (sleeve_ids p) p.rebalance_capacity.borrower_sleeve_ids
  pub repay : AreKnown (sleeve_ids p) p.rebalance_capacity.repay_priority_sleeve_ids
  pub no_reserve : is_member cash_buffer p.rebalance_capacity.borrowable_sleeve_ids ≡ false

with_defaults-IsPolicy : (p : MoneyManagementPolicy) → IsChecked p → IsPolicy (with_defaults p)
unfolding with_defaults
with_defaults-IsPolicy p h =
    let known = sleeve_ids p in
    let c = p.rebalance_capacity in
    let (named, r) =
      unknown_append known (c.borrowable_sleeve_ids ++ c.borrower_sleeve_ids)
        c.repay_priority_sleeve_ids h.capacity in
    let (a, b) = unknown_append known c.borrowable_sleeve_ids c.borrower_sleeve_ids named in
    let borrowable =
      borrowable_ids-AreKnown known (borrower_ids known c.borrower_sleeve_ids)
        c.borrowable_sleeve_ids (all_known known _ a) in
    record {
      distinct = h.distinct;
      balanced = h.balanced;
      reserve = h.reserve;
      mappings = all_known known (mapped_sleeves p) h.mappings;
      borrowable = borrowable;
      borrowers = borrower_ids-AreKnown known c.borrower_sleeve_ids (all_known known _ b);
      repay =
          repay_ids-AreKnown known _ c.repay_priority_sleeve_ids borrowable (all_known known _ r);
      no_reserve =
          borrowable_ids_reserve known (borrower_ids known c.borrower_sleeve_ids)
            c.borrowable_sleeve_ids h.no_reserve;
    }

with_defaults-Disjoint :
    (p : MoneyManagementPolicy)
    → IsDeclared p.rebalance_capacity
    → IsChecked p
    → Disjoint
        (with_defaults p).rebalance_capacity.borrower_sleeve_ids
        (with_defaults p).rebalance_capacity.borrowable_sleeve_ids
unfolding with_defaults
with_defaults-Disjoint p declared h =
    let c = p.rebalance_capacity in
    borrowable_ids-Disjoint (sleeve_ids p) (borrower_ids (sleeve_ids p) c.borrower_sleeve_ids)
      c.borrowable_sleeve_ids
      (explicit-Disjoint (sleeve_ids p) c.borrower_sleeve_ids c.borrowable_sleeve_ids declared
        (none_of _ c.borrowable_sleeve_ids h.apart))

-- A policy that validation returns has sleeves with distinct ids whose weights sum to a hundred
-- percent and one of which is the cash buffer; its mappings, borrowers, borrowable and repaid sleeves, with
-- their defaults, are sleeves of the policy, and the cash buffer is not borrowable.
pub validate_policy-IsPolicy :
    (p : MoneyManagementPolicy) {p' : MoneyManagementPolicy}
    → validate_policy p ≡ ok p'
    → IsPolicy p'
validate_policy-IsPolicy p h =
    let (checked, filled) = validate_policy-checks p h in
    subst IsPolicy filled (with_defaults-IsPolicy p checked)

-- In a policy that validation returns, no borrower is borrowable, unless the policy names no borrower
-- and lists the active strategy as borrowable.
pub validate_policy-Disjoint :
    (p : MoneyManagementPolicy) {p' : MoneyManagementPolicy}
    → IsDeclared p.rebalance_capacity
    → validate_policy p ≡ ok p'
    → Disjoint p'.rebalance_capacity.borrower_sleeve_ids p'.rebalance_capacity.borrowable_sleeve_ids
validate_policy-Disjoint p declared h =
    let (checked, filled) = validate_policy-checks p h in
    subst
      (λ q.
        Disjoint q.rebalance_capacity.borrower_sleeve_ids
          q.rebalance_capacity.borrowable_sleeve_ids)
      filled (with_defaults-Disjoint p declared checked)
