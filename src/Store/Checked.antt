-- ===== src/Store/Checked.antt =====
-- What the constraints of the tables make of a call.
use taurus_agent.Base.{
  ◌≡◌, ◌⊎◌, refl, sym, ap, ◌∙◌, true, false, Result, ok, err, Returns, ◌>>=◌, >>=-eq-ok,
  ok_injective, constraint_violated, Bool-cases, inl, inr,
}
use taurus_agent.Store.Tables.{Session}
use taurus_agent.Store.Constraints.{meets_constraints, flush}
use taurus_agent.Store.Storable.{IsStorable, meets_constraints_iff}

flush-eq-ok :
    (db : Session) {db' : Session} → flush db ≡ ok db' → (db ≡ db') × (meets_constraints db ≡ true)
unfolding flush
flush-eq-ok db h = elim (Bool-cases (meets_constraints db)) [
  | inl met ↦ (ok_injective (rw met at h), met)
  | inr broken ↦ absurd (let h = rw broken at h in cc)
]

pub flush_met : (db : Session) → meets_constraints db ≡ true → flush db ≡ ok db
unfolding flush
flush_met db h = rw h refl

flush_broken : (db : Session) → meets_constraints db ≡ false → flush db ≡ err constraint_violated
unfolding flush
flush_broken db h = rw h refl

-- A call's rows are checked before it returns.
abbrev pub checked : {A : Type 0} → Result (A × Session) → Result (A × Session)
checked call = call >>= λ x. flush x.1 >>= λ stored. ok (x.0, stored)

pub checked-eq-ok :
    {A : Type 0} (call : Result (A × Session)) {a : A} {db' : Session}
    → checked call ≡ ok (a, db')
    → (call ≡ ok (a, db')) × (meets_constraints db' ≡ true)
checked-eq-ok (err e) h = absurd (cc)
checked-eq-ok (ok (x, db)) h =
    let (stored, flushed, h) = >>=-eq-ok (flush db) _ h in
    let (same, met) = flush-eq-ok db flushed in
    let e = ok_injective h in
    let end = same ∙ ap (λ p. p.1) e in (ap (λ (s : Session). ok (x, s)) same ∙ h, rw (sym end) met)

-- The call returns what it would store where the database takes those rows, and fails where not.
abbrev pub IsChecked : {A : Type 0} → (unchecked checked : Result (A × Session)) → Type 0
IsChecked {A = A} unchecked returned =
    (x : A × Session) × (unchecked ≡ ok x)
    × ((IsStorable x.1 × (returned ≡ ok x))
        ⊎ ((¬ (IsStorable x.1)) × (returned ≡ err constraint_violated)))

pub checked-IsChecked :
    {A : Type 0} (call : Result (A × Session)) → Returns call → IsChecked call (checked call)
checked-IsChecked call (x, e) = elim (Bool-cases (meets_constraints x.1)) [
  | inl met ↦ (x, e, inl ((meets_constraints_iff x.1).0 met, rw (e, flush_met x.1 met) refl))
  | inr broken ↦ (
    x,
    e,
    inr (
      (λ taken. let met = (meets_constraints_iff x.1).1 taken in cc),
      rw (e, flush_broken x.1 broken) refl,
    ),
  )
]
