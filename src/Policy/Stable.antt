-- ===== src/Policy/Stable.antt =====
-- The validation of a policy that has been validated.
use mathlib.Core.Path.{subst}
use taurus_agent.Base.{
  ℕ, ◌≡◌, refl, Bool, true, false, not, ◌&&◌, List, [], ◌∷◌, ◌++◌, ◌==◌, any_of, keep_if, All, ok,
  if◌then◌else◌, Bool-cases, inl, inr, arith, sum_by,
}
use taurus_agent.Policy.Schema.{cash_buffer, active_strategy, MoneyManagementPolicy}
use taurus_agent.Policy.{
  is_member, sleeve_ids, is_empty, any_unknown, borrower_ids, borrowable_ids, repay_ids,
  with_defaults, validate_policy, mapped_sleeves,
}
use taurus_agent.Policy.Known.{AreKnown, Disjoint}
use taurus_agent.Policy.Defaults.{IsDeclared}
use taurus_agent.Policy.Valid.{
  IsPolicy, IsChecked, validate_policy-IsPolicy, validate_policy-Disjoint, validate_policy-checks,
}

any_of_none :
    (test : ℕ → Bool) (xs : List ℕ) → All (λ x. test x ≡ false) xs → any_of test xs ≡ false
any_of_none test [] h = refl
any_of_none test (x ∷ xs) h = ground (arith, h.0, any_of_none test xs h.1)

none_unknown : (known xs : List ℕ) → AreKnown known xs → any_unknown known xs ≡ false
none_unknown known [] h = refl
none_unknown known (x ∷ xs) h = ground (arith, h.0, none_unknown known xs h.1)

unknown_join :
    (known xs ys : List ℕ)
    → any_unknown known xs ≡ false
    → any_unknown known ys ≡ false
    → any_unknown known (xs ++ ys) ≡ false
unknown_join known [] ys h h' = h'
unknown_join known (x ∷ xs) ys h h' = ground (arith, unknown_join known xs ys (ground arith) h')

member-is_empty : (x : ℕ) (xs : List ℕ) → is_member x xs ≡ true → is_empty xs ≡ false
member-is_empty x [] h = ground arith
member-is_empty x (y ∷ ys) h = refl

-- A policy that passes the checks is returned with its defaults.
IsChecked-accepted :
    (p : MoneyManagementPolicy) → IsChecked p → validate_policy p ≡ ok (with_defaults p)
unfolding validate_policy
IsChecked-accepted p h =
    let balanced : (sum_by (λ s. s.target_weight_pct) p.sleeves == 1_000_000) ≡ true =
      ground (arith, h.balanced) in
    rw
      (
        member-is_empty cash_buffer (sleeve_ids p) h.reserve,
        h.distinct,
        balanced,
        h.reserve,
        h.mappings,
        h.capacity,
        h.no_reserve,
        h.apart,
      )
      refl

borrower_ids_again :
    (known xs : List ℕ) → borrower_ids known (borrower_ids known xs) ≡ borrower_ids known xs
unfolding borrower_ids
borrower_ids_again known [] = elim (Bool-cases (is_member active_strategy known)) [
  | inl named ↦ rw named refl
  | inr unnamed ↦ rw unnamed refl
]
borrower_ids_again known (x ∷ xs) = refl

either_same : (xs : List ℕ) → (if is_empty xs then xs else xs) ≡ xs
either_same [] = refl
either_same (x ∷ xs) = refl

borrowable_ids_again :
    (known borrowers xs : List ℕ)
    → borrowable_ids known borrowers (borrowable_ids known borrowers xs)
      ≡ borrowable_ids known borrowers xs
unfolding borrowable_ids
borrowable_ids_again known borrowers [] =
    either_same (keep_if (λ x. not (x == cash_buffer) && not (is_member x borrowers)) known)
borrowable_ids_again known borrowers (x ∷ xs) = refl

repay_ids_again :
    (borrowable xs : List ℕ)
    → repay_ids borrowable (repay_ids borrowable xs) ≡ repay_ids borrowable xs
unfolding repay_ids
repay_ids_again borrowable [] = either_same borrowable
repay_ids_again borrowable (x ∷ xs) = refl

with_defaults_again :
    (p : MoneyManagementPolicy) → with_defaults (with_defaults p) ≡ with_defaults p
unfolding with_defaults
with_defaults_again p =
    let known = sleeve_ids p in
    let c = p.rebalance_capacity in
    rw
      (
        borrower_ids_again known c.borrower_sleeve_ids,
        borrowable_ids_again known (borrower_ids known c.borrower_sleeve_ids)
            c.borrowable_sleeve_ids,
        repay_ids_again
            (borrowable_ids known (borrower_ids known c.borrower_sleeve_ids)
              c.borrowable_sleeve_ids)
            c.repay_priority_sleeve_ids,
      )
      refl

IsPolicy-IsChecked :
    (p : MoneyManagementPolicy)
    → IsPolicy p
    → Disjoint p.rebalance_capacity.borrower_sleeve_ids p.rebalance_capacity.borrowable_sleeve_ids
    → IsChecked p
IsPolicy-IsChecked p h apart =
    let known = sleeve_ids p in
    let c = p.rebalance_capacity in
    record {
      distinct = h.distinct;
      balanced = h.balanced;
      reserve = h.reserve;
      mappings = none_unknown known (mapped_sleeves p) h.mappings;
      capacity =
          unknown_join known (c.borrowable_sleeve_ids ++ c.borrower_sleeve_ids)
            c.repay_priority_sleeve_ids
            (unknown_join known c.borrowable_sleeve_ids c.borrower_sleeve_ids
              (none_unknown known c.borrowable_sleeve_ids h.borrowable)
              (none_unknown known c.borrower_sleeve_ids h.borrowers))
            (none_unknown known c.repay_priority_sleeve_ids h.repay);
      no_reserve = h.no_reserve;
      apart = any_of_none (λ x. is_member x c.borrower_sleeve_ids) c.borrowable_sleeve_ids apart;
    }

-- A policy that validation returns is accepted by validation again and comes back unchanged, unless
-- it came from one that names no borrower and lists the active strategy as borrowable.
pub validate_policy_stable :
    (p : MoneyManagementPolicy) {p' : MoneyManagementPolicy}
    → IsDeclared p.rebalance_capacity
    → validate_policy p ≡ ok p'
    → validate_policy p' ≡ ok p'
validate_policy_stable p {p'} declared h =
    let (_, filled) = validate_policy-checks p h in
    let checked =
      IsPolicy-IsChecked p' (validate_policy-IsPolicy p h)
        (validate_policy-Disjoint p declared h) in
    let fixed = subst (λ q. with_defaults q ≡ q) filled (with_defaults_again p) in
    subst (λ q. validate_policy p' ≡ ok q) fixed (IsChecked-accepted p' checked)
