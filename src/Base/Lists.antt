-- ===== src/Base/Lists.antt =====
-- Lists measured by native numbers, Boolean filters and predicates on lists.
use Prim.Native.Nat.{ℕ, suc, ◌+◌}
use mathlib.Core.Path.{◌≡◌, refl}
use mathlib.Core.Bool.{Bool, true, false, not, ◌||◌}
use mathlib.Core.Option.{Option, none, some}
use mathlib.Core.List.{List, [], ◌∷◌, ◌++◌, map}
use native.Mathlib.Omega.{arith}
use taurus_agent.Base.Tests.{if◌then◌else◌, Bool-cases}
use mathlib.Core.Logic.{inl, inr}

-- A predicate on every entry, by recursion.
abbrev pub All {ℓ κ} : {A : Type ℓ} → (A → Type κ) → List A → Type κ
All P [] = Unit
All P (x ∷ xs) = P x × All P xs

module _ {ℓ} {A : Type ℓ} where
  abbrev pub length : List A → ℕ
  length [] = 0
  length (x ∷ xs) = suc (length xs)

  -- `[x for x in xs if keep(x)]`
  abbrev pub keep_if : (A → Bool) → List A → List A
  keep_if keep [] = []
  keep_if keep (x ∷ xs) = if keep x then x ∷ keep_if keep xs else keep_if keep xs

  -- `any(test(x) for x in xs)`
  abbrev pub any_of : (A → Bool) → List A → Bool
  any_of test [] = false
  any_of test (x ∷ xs) = test x || any_of test xs

  -- The first entry that passes a test.
  abbrev pub first_of_list : (A → Bool) → List A → Option A
  first_of_list test [] = none
  first_of_list test (x ∷ xs) = if test x then some x else first_of_list test xs

  -- `xs[0] if xs else None`
  abbrev pub head_of : List A → Option A
  head_of [] = none
  head_of (x ∷ xs) = some x

  -- `xs[-1] if xs else None`
  abbrev pub last_of : List A → Option A
  last_of [] = none
  last_of (x ∷ []) = some x
  last_of (x ∷ y ∷ ys) = last_of (y ∷ ys)

  -- `sum(value(x) for x in xs)` over native numbers.
  abbrev pub sum_by : (A → ℕ) → List A → ℕ
  sum_by value [] = 0
  sum_by value (x ∷ xs) = value x + sum_by value xs

  pub length-append : (xs ys : List A) → length (xs ++ ys) ≡ length xs + length ys
  length-append [] ys = omega arith
  length-append (x ∷ xs) ys = omega (arith, length-append xs ys)

  pub sum_by-append :
      (value : A → ℕ) (xs ys : List A) → sum_by value (xs ++ ys) ≡ sum_by value xs + sum_by value ys
  sum_by-append value [] ys = omega arith
  sum_by-append value (x ∷ xs) ys = omega (arith, sum_by-append value xs ys)

  pub keep_if-append :
      (keep : A → Bool) (xs ys : List A)
      → keep_if keep (xs ++ ys) ≡ keep_if keep xs ++ keep_if keep ys
  keep_if-append keep [] ys = refl
  keep_if-append keep (x ∷ xs) ys = ground (arith, keep_if-append keep xs ys)

  pub keep_if_twice :
      (keep : A → Bool) (xs : List A) → keep_if keep (keep_if keep xs) ≡ keep_if keep xs
  keep_if_twice keep [] = refl
  keep_if_twice keep (x ∷ xs) = ground (arith, keep_if_twice keep xs)

  -- A filter drops a list whose entries all fail its test.
  pub keep_if_none :
      (keep : A → Bool) (xs : List A) → All (λ x. keep x ≡ false) xs → keep_if keep xs ≡ []
  keep_if_none keep [] h = refl
  keep_if_none keep (x ∷ xs) h = ground (arith, keep_if_none keep xs h.1)

-- The entries that pass a test and those that fail it make up the list.
pub sum_by-partition {ℓ} :
    {A : Type ℓ} (value : A → ℕ) (keep : A → Bool) (xs : List A)
    → sum_by value (keep_if (λ x. not (keep x)) xs) + sum_by value (keep_if keep xs)
      ≡ sum_by value xs
sum_by-partition value keep [] = refl
sum_by-partition value keep (x ∷ xs) = ground (arith, sum_by-partition value keep xs)

pub sum_by-map {ℓ κ} :
    {A : Type ℓ} {B : Type κ} (value : B → ℕ) (f : A → B) (xs : List A)
    → sum_by value (map f xs) ≡ sum_by (λ x. value (f x)) xs
sum_by-map value f [] = refl
sum_by-map value f (x ∷ xs) = omega (arith, sum_by-map value f xs)

module _ {ℓ} {A : Type ℓ} (before : A → A → Bool) where
  -- Insertion before the first entry that need not stand earlier.
  abbrev pub insert_by : A → List A → List A
  insert_by x [] = x ∷ []
  insert_by x (y ∷ ys) = if before x y then x ∷ y ∷ ys else y ∷ insert_by x ys

  -- A stable sort, as of `sorted` and `ORDER BY`.
  abbrev pub sort_by : List A → List A
  sort_by [] = []
  sort_by (x ∷ xs) = insert_by x (sort_by xs)

  pub length-insert_by : (x : A) (xs : List A) → length (insert_by x xs) ≡ suc (length xs)
  length-insert_by x [] = refl
  length-insert_by x (y ∷ ys) = ground (arith, length-insert_by x ys)

  pub length-sort_by : (xs : List A) → length (sort_by xs) ≡ length xs
  length-sort_by [] = refl
  length-sort_by (x ∷ xs) = omega (arith, length-insert_by x (sort_by xs), length-sort_by xs)

  pub sum_by-insert_by :
      (value : A → ℕ) (x : A) (xs : List A)
      → sum_by value (insert_by x xs) ≡ value x + sum_by value xs
  sum_by-insert_by value x [] = refl
  sum_by-insert_by value x (y ∷ ys) = ground (arith, sum_by-insert_by value x ys)

  pub sum_by-sort_by : (value : A → ℕ) (xs : List A) → sum_by value (sort_by xs) ≡ sum_by value xs
  sum_by-sort_by value [] = refl
  sum_by-sort_by value (x ∷ xs) =
      omega (arith, sum_by-insert_by value x (sort_by xs), sum_by-sort_by value xs)

pub All-map {ℓ κ κ'} :
    {A : Type ℓ} (P : A → Type κ) (Q : A → Type κ') (xs : List A)
    → ((x : A) → P x → Q x)
    → All P xs
    → All Q xs
All-map P Q [] f h = tt
All-map P Q (x ∷ xs) f h = (f x h.0, All-map P Q xs f h.1)

module _ {ℓ κ} {A : Type ℓ} (P : A → Type κ) where
  pub All-keep_if : (keep : A → Bool) (xs : List A) → All P xs → All P (keep_if keep xs)
  All-keep_if keep [] h = tt
  All-keep_if keep (x ∷ xs) h = elim (Bool-cases (keep x)) [
    | inl kept ↦ rw kept (h.0, All-keep_if keep xs h.1)
    | inr dropped ↦ rw dropped (All-keep_if keep xs h.1)
  ]

  pub All-insert_by :
      (before : A → A → Bool) (x : A) (xs : List A) → P x → All P xs → All P (insert_by before x xs)
  All-insert_by before x [] h h' = (h, tt)
  All-insert_by before x (y ∷ ys) h h' = elim (Bool-cases (before x y)) [
    | inl first ↦ rw first (h, h')
    | inr later ↦ rw later (h'.0, All-insert_by before x ys h h'.1)
  ]

  pub All-sort_by : (before : A → A → Bool) (xs : List A) → All P xs → All P (sort_by before xs)
  All-sort_by before [] h = tt
  All-sort_by before (x ∷ xs) h =
      All-insert_by before x (sort_by before xs) h.0 (All-sort_by before xs h.1)

module _ {ℓ κ} {A : Type ℓ} (P : A → Type κ) (before : A → A → Bool) where
  insert-All : (x : A) (xs : List A) → All P (insert_by before x xs) → P x × All P xs
  insert-All x [] h = h
  insert-All x (y ∷ ys) h = elim (Bool-cases (before x y)) [
    | inl first ↦ rw first at h
    | inr later ↦
        let h' : P y × All P (insert_by before x ys) = rw later at h in
        let (a, b) = insert-All x ys h'.1 in (a, (h'.0, b))
  ]

  -- What holds of a sorted list's entries holds of the list's.
  pub All-unsort : (xs : List A) → All P (sort_by before xs) → All P xs
  All-unsort [] h = tt
  All-unsort (x ∷ xs) h = let (a, b) = insert-All x (sort_by before xs) h in (a, All-unsort xs b)

-- A filter keeps what passes.
pub keep_if-All {ℓ} :
    {A : Type ℓ} (keep : A → Bool) (xs : List A) → All (λ x. keep x ≡ true) (keep_if keep xs)
keep_if-All keep [] = tt
keep_if-All keep (x ∷ xs) = elim (Bool-cases (keep x)) [
  | inl kept ↦ rw kept (kept, keep_if-All keep xs)
  | inr dropped ↦ rw dropped (keep_if-All keep xs)
]
