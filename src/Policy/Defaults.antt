-- ===== src/Policy/Defaults.antt =====
-- What the defaults that `validate_policy` fills in keep.
use taurus_agent.Base.{
  ℕ, ◌≡◌, true, false, not, ◌&&◌, List, [], ◌∷◌, ◌==◌, keep_if, keep_if-All, All-keep_if, All-map,
  Bool-cases, inl, inr, arith,
}
use taurus_agent.Policy.Schema.{cash_buffer, active_strategy, RebalanceCapacityPolicy}
use taurus_agent.Policy.{is_member, is_empty, borrower_ids, borrowable_ids, repay_ids}
use taurus_agent.Policy.Known.{AreKnown, Disjoint, known_self, no_buffer}

pub borrower_ids-AreKnown :
    (known explicit : List ℕ)
    → AreKnown known explicit
    → AreKnown known (borrower_ids known explicit)
unfolding borrower_ids
borrower_ids-AreKnown known [] h = elim (Bool-cases (is_member active_strategy known)) [
  | inl named ↦ rw named (named, tt)
  | inr unnamed ↦ rw unnamed tt
]
borrower_ids-AreKnown known (x ∷ xs) h = h

pub borrowable_ids-AreKnown :
    (known borrowers explicit : List ℕ)
    → AreKnown known explicit
    → AreKnown known (borrowable_ids known borrowers explicit)
unfolding borrowable_ids
borrowable_ids-AreKnown known borrowers [] h =
    All-keep_if (λ x. is_member x known ≡ true)
      (λ x. not (x == cash_buffer) && not (is_member x borrowers)) known (known_self known)
borrowable_ids-AreKnown known borrowers (x ∷ xs) h = h

pub repay_ids-AreKnown :
    (known borrowable explicit : List ℕ)
    → AreKnown known borrowable
    → AreKnown known explicit
    → AreKnown known (repay_ids borrowable explicit)
unfolding repay_ids
repay_ids-AreKnown known borrowable [] b h = b
repay_ids-AreKnown known borrowable (x ∷ xs) b h = h

pub borrowable_ids_reserve :
    (known borrowers explicit : List ℕ)
    → is_member cash_buffer explicit ≡ false
    → is_member cash_buffer (borrowable_ids known borrowers explicit) ≡ false
unfolding borrowable_ids
borrowable_ids_reserve known borrowers [] h = no_buffer borrowers known
borrowable_ids_reserve known borrowers (x ∷ xs) h = h

not_active :
    (xs : List ℕ) → is_member active_strategy xs ≡ false → Disjoint (active_strategy ∷ []) xs
not_active [] h = tt
not_active (x ∷ xs) h = (ground arith, not_active xs (ground arith))

kept_apart :
    (borrowers xs : List ℕ)
    → Disjoint borrowers (keep_if (λ x. not (x == cash_buffer) && not (is_member x borrowers)) xs)
kept_apart borrowers xs =
    All-map _ _ _ (λ x h. ground arith)
      (keep_if-All (λ x. not (x == cash_buffer) && not (is_member x borrowers)) xs)

-- An empty list of borrowers does not stand beside a borrowable active strategy.
abbrev pub IsDeclared : RebalanceCapacityPolicy → Type 0
IsDeclared c =
    (is_empty c.borrower_sleeve_ids && is_member active_strategy c.borrowable_sleeve_ids) ≡ false

pub explicit-Disjoint :
    (known borrowers borrowable : List ℕ)
    → (is_empty borrowers && is_member active_strategy borrowable) ≡ false
    → Disjoint borrowers borrowable
    → Disjoint (borrower_ids known borrowers) borrowable
unfolding borrower_ids
explicit-Disjoint known [] borrowable declared h =
    elim (Bool-cases (is_member active_strategy known)) [
      | inl named ↦ rw named (not_active borrowable declared)
      | inr unnamed ↦ rw unnamed h
    ]
explicit-Disjoint known (x ∷ xs) borrowable declared h = h

pub borrowable_ids-Disjoint :
    (known borrowers explicit : List ℕ)
    → Disjoint borrowers explicit
    → Disjoint borrowers (borrowable_ids known borrowers explicit)
unfolding borrowable_ids
borrowable_ids-Disjoint known borrowers [] h = kept_apart borrowers known
borrowable_ids-Disjoint known borrowers (x ∷ xs) h = h
