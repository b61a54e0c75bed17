-- ===== src/Policy/Known.antt =====
-- Lists of sleeve ids: what is known, and what is disjoint.
use taurus_agent.Base.{
  ℕ, ◌≡◌, refl, Bool, true, false, not, ◌&&◌, List, [], ◌∷◌, ◌++◌, ◌==◌, any_of, keep_if, All,
  arith,
}
use taurus_agent.Policy.Schema.{cash_buffer}
use taurus_agent.Policy.{is_member, any_unknown}

-- Every entry is a known sleeve.
abbrev pub AreKnown : List ℕ → List ℕ → Type 0
AreKnown known = All (λ x. is_member x known ≡ true)

-- No entry of the second list is in the first.
abbrev pub Disjoint : List ℕ → List ℕ → Type 0
Disjoint borrowers = All (λ x. is_member x borrowers ≡ false)

pub none_of :
    (test : ℕ → Bool) (xs : List ℕ) → any_of test xs ≡ false → All (λ x. test x ≡ false) xs
none_of test [] h = tt
none_of test (x ∷ xs) h = (ground arith, none_of test xs (ground arith))

pub all_known : (known xs : List ℕ) → any_unknown known xs ≡ false → AreKnown known xs
all_known known [] h = tt
all_known known (x ∷ xs) h = (ground arith, all_known known xs (ground arith))

known_later : (k : ℕ) (known xs : List ℕ) → AreKnown known xs → AreKnown (k ∷ known) xs
known_later k known [] h = tt
known_later k known (x ∷ xs) h = (ground (arith, h.0), known_later k known xs h.1)

pub known_self : (known : List ℕ) → AreKnown known known
known_self [] = tt
known_self (k ∷ known) = (ground arith, known_later k known known (known_self known))

pub unknown_append :
    (known xs ys : List ℕ)
    → any_unknown known (xs ++ ys) ≡ false
    → (any_unknown known xs ≡ false) × (any_unknown known ys ≡ false)
unknown_append known [] ys h = (refl, h)
unknown_append known (x ∷ xs) ys h =
    let (a, b) = unknown_append known xs ys (ground arith) in (ground arith, b)

pub no_buffer :
    (borrowers known : List ℕ)
    → is_member cash_buffer
        (keep_if (λ x. not (x == cash_buffer) && not (is_member x borrowers)) known)
      ≡ false
no_buffer borrowers [] = refl
no_buffer borrowers (k ∷ known) = ground (arith, no_buffer borrowers known)
