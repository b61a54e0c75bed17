-- ===== src/Risk/Graph/Worst.antt =====
-- The decision that the sort puts first, and what one decision is.
use mathlib.Core.Path.{subst}
use taurus_agent.Base.{
  ℕ, ◌+◌, ◌≤◌, ◌<◌, ◌≡◌, refl, sym, Bool, true, false, ◌&&◌, ◌||◌, List, [], ◌∷◌, ◌==◌, ltb,
  sort_by, insert_by, length, length-sort_by, All, All-map, arith, Bool-cases, inl, inr,
}
use taurus_agent.Risk.Graph.{
  ExposureDecision, status_and_approved, status_severity, decision_before, worst_of,
}

-- How a decision relates to a positive proposed position and to the limit.
pub record IsDecided (limit proposed existing projected approved severity : ℕ) : Type 0 where
  pub projection : projected ≡ existing + proposed
  pub within : approved ≤ proposed
  pub known : severity ≤ 3
  pub kept : severity ≤ 1 → (existing + proposed ≤ limit) × (approved ≡ proposed)
  pub cut : severity ≡ 2 → (existing + approved ≡ limit) × (0 < approved)
  pub none : severity ≡ 3 → approved ≡ 0

pub status-IsDecided :
    (existing proposed limit threshold : ℕ)
    → 0 < proposed
    → let r = status_and_approved existing proposed limit threshold in
      IsDecided limit proposed existing (existing + proposed) r.1 (status_severity r.0)
unfolding status_and_approved
status-IsDecided existing proposed limit threshold h = record {
  projection = refl;
  within = ground arith;
  known = ground arith;
  kept = λ e. ground arith;
  cut = λ e. ground arith;
  none = λ e. ground arith;
}

abbrev pub severity_of : ExposureDecision → ℕ
severity_of d = status_severity d.status

-- The first decision is not behind the second one in the sort.
abbrev pub IsWorse : ExposureDecision → ExposureDecision → Type 0
IsWorse a b =
    (severity_of b ≤ severity_of a)
    × (severity_of b ≡ severity_of a → b.projected_exposure_pct_nav ≤ a.projected_exposure_pct_nav)

lex_true :
    (sa sb pa pb : ℕ) (x : Bool)
    → (ltb sb sa || (sa == sb && (ltb pb pa || (pa == pb && x)))) ≡ true
    → (sb ≤ sa) × (sb ≡ sa → pb ≤ pa)
lex_true sa sb pa pb x h = (ground arith, λ e. ground arith)

lex_false :
    (sa sb pa pb : ℕ) (x : Bool)
    → (ltb sb sa || (sa == sb && (ltb pb pa || (pa == pb && x)))) ≡ false
    → (sa ≤ sb) × (sa ≡ sb → pa ≤ pb)
lex_false sa sb pa pb x h = (ground arith, λ e. ground arith)

before-IsWorse : (a b : ExposureDecision) → decision_before a b ≡ true → IsWorse a b
unfolding decision_before
before-IsWorse a b h = lex_true _ _ _ _ _ h

behind-IsWorse : (a b : ExposureDecision) → decision_before a b ≡ false → IsWorse b a
unfolding decision_before
behind-IsWorse a b h = lex_false _ _ _ _ _ h

IsWorse-trans : (a b c : ExposureDecision) → IsWorse a b → IsWorse b c → IsWorse a c
IsWorse-trans a b c (s, p) (s', p') = (
  omega arith,
  λ e.
      let e' : severity_of c ≡ severity_of b = omega arith in
      let e'' : severity_of b ≡ severity_of a = omega arith in
      let first = p' e' in let second = p e'' in omega arith,
)

IsWorse-refl : (a : ExposureDecision) → IsWorse a a
IsWorse-refl a = (omega arith, λ e. omega arith)

-- One more decision in a list that is sorted.
worst_insert :
    (default x : ExposureDecision) (sorted ds : List ExposureDecision)
    → 0 < length sorted
    → All (IsWorse (worst_of default sorted)) ds
    → All (IsWorse (worst_of default (insert_by decision_before x sorted))) (x ∷ ds)
worst_insert default x [] ds some_rows h = absurd (omega arith)
worst_insert default x (l ∷ sorted) ds some_rows h = elim (Bool-cases (decision_before x l)) [
  | inl first ↦
      let e : insert_by decision_before x (l ∷ sorted) ≡ x ∷ l ∷ sorted = rw first refl in
      subst (λ t. All (IsWorse (worst_of default t)) (x ∷ ds)) (sym e)
        (IsWorse-refl x, All-map _ _ ds (λ d. IsWorse-trans x l d (before-IsWorse x l first)) h)
  | inr later ↦
      let e : insert_by decision_before x (l ∷ sorted) ≡ l ∷ insert_by decision_before x sorted =
        rw later refl in
      subst (λ t. All (IsWorse (worst_of default t)) (x ∷ ds)) (sym e) (behind-IsWorse x l later, h)
]

-- The first of the sorted decisions is behind none of them.
pub worst_of-IsWorse :
    (default x : ExposureDecision) (ds : List ExposureDecision)
    → All (IsWorse (worst_of default (sort_by decision_before (x ∷ ds)))) (x ∷ ds)
worst_of-IsWorse default x [] = (IsWorse-refl x, tt)
worst_of-IsWorse default x (d ∷ ds) =
    worst_insert default x (sort_by decision_before (d ∷ ds)) (d ∷ ds)
      (omega (arith, length-sort_by decision_before (d ∷ ds))) (worst_of-IsWorse default d ds)

pub worst_of-All :
    (P : ExposureDecision → Type 0) (default : ExposureDecision) (ds : List ExposureDecision)
    → P default
    → All P ds
    → P (worst_of default ds)
worst_of-All P default [] h h' = h
worst_of-All P default (d ∷ ds) h h' = h'.0
