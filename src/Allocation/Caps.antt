-- ===== src/Allocation/Caps.antt =====
-- The least of the caps, and the quantity that it leaves.
use native.Mathlib.Nat.{div-mul-le_self}
use taurus_agent.Base.{
  ℕ, ◌*◌, ◌/◌, ◌≤◌, ◌≡◌, true, false, List, [], ◌∷◌, if◌then◌else◌, All, All-map, arith, Bool-cases,
  inl, inr,
}
use taurus_agent.Allocation.Rooms.{Room, room_before, least_room}

-- The least room is no larger than any.
abbrev Below : ℕ → List Room → Type 0
Below n = All (λ (r : Room). n ≤ r.1)

before-le : (a b : Room) → room_before a b ≡ true → a.1 ≤ b.1
unfolding room_before
before-le (a, m) (b, n) h = ground arith

behind-le : (a b : Room) → room_before a b ≡ false → b.1 ≤ a.1
unfolding room_before
behind-le (a, m) (b, n) h = ground arith

abbrev chosen : Room → Room → Room
chosen r best = if room_before r best then r else best

chosen-le : (r best : Room) → ((chosen r best).1 ≤ r.1) × ((chosen r best).1 ≤ best.1)
chosen-le r best = elim (Bool-cases (room_before r best)) [
  | inl first ↦ let le = before-le r best first in rw first (omega arith, omega arith)
  | inr later ↦ let le = behind-le r best later in rw later (omega arith, omega arith)
]

least_room-Below : (best : Room) (rs : List Room) → Below (least_room best rs).1 (best ∷ rs)
unfolding least_room
least_room-Below best [] = (omega arith, tt)
least_room-Below best (r ∷ rs) =
    let ih = least_room-Below (chosen r best) rs in
    let (of_r, of_best) = chosen-le r best in (omega (arith, ih.0), (omega (arith, ih.0), ih.1))

-- What a quantity costs is within every cap.
abbrev pub FitsCaps : (cost : ℕ) → List Room → Type 0
FitsCaps cost = All (λ (r : Room). cost ≤ r.1)

pub quantity-FitsCaps :
    (best : Room) (rs : List Room) (price : ℕ)
    → FitsCaps ((least_room best rs).1 / price * price) (best ∷ rs)
quantity-FitsCaps best rs price =
    All-map _ _ (best ∷ rs) (λ r h. omega (arith, div-mul-le_self (least_room best rs).1 price))
      (least_room-Below best rs)
