-- ===== src/Store/Keys.antt =====
-- Order rows by their primary key.
use taurus_agent.Base.{
  ℕ, suc, ◌≡◌, ◌≢◌, refl, sym, Bool, true, false, List, [], ◌∷◌, some, ◌==◌, All, All-keep_if,
  All-insert_by, All-sort_by, keep_if, insert_by, sort_by, length, arith, Bool-cases, inl, inr,
  some_injective, ==_iff, ==_refl,
}
use taurus_agent.Execution.{PaperOrder}
use taurus_agent.Store.Writes.{find_order, update_order}

-- No row has the key.
abbrev pub IsFresh : ℕ → List PaperOrder → Type 0
IsFresh id = All (λ o. o.order_id ≢ id)

-- The keys of the rows differ.
abbrev pub HasUniqueIds : List PaperOrder → Type 0
HasUniqueIds [] = Unit
HasUniqueIds (o ∷ os) = IsFresh o.order_id os × HasUniqueIds os

-- The row is the one that its key finds.
abbrev pub IsFoundIn : List PaperOrder → PaperOrder → Type 0
IsFoundIn orders o = find_order o.order_id orders ≡ some o

found_behind :
    (o : PaperOrder) (os rs : List PaperOrder)
    → IsFresh o.order_id rs
    → All (IsFoundIn os) rs
    → All (IsFoundIn (o ∷ os)) rs
found_behind o os [] h h' = tt
found_behind o os (r ∷ rs) h h' = (ground arith, found_behind o os rs h.1 h'.1)

pub find_own : (os : List PaperOrder) → HasUniqueIds os → All (IsFoundIn os) os
find_own [] h = tt
find_own (o ∷ os) h = (ground arith, found_behind o os os h.0 (find_own os h.1))

pub HasUniqueIds-keep_if :
    (keep : PaperOrder → Bool) (os : List PaperOrder)
    → HasUniqueIds os
    → HasUniqueIds (keep_if keep os)
HasUniqueIds-keep_if keep [] h = tt
HasUniqueIds-keep_if keep (o ∷ os) h = elim (Bool-cases (keep o)) [
  | inl kept ↦ rw kept (All-keep_if _ keep os h.0, HasUniqueIds-keep_if keep os h.1)
  | inr dropped ↦ rw dropped (HasUniqueIds-keep_if keep os h.1)
]

module _ (before : PaperOrder → PaperOrder → Bool) where
  unique_insert :
      (x : PaperOrder) (os : List PaperOrder)
      → IsFresh x.order_id os
      → HasUniqueIds os
      → HasUniqueIds (insert_by before x os)
  unique_insert x [] h h' = (tt, tt)
  unique_insert x (o ∷ os) h h' = elim (Bool-cases (before x o)) [
    | inl first ↦ rw first (h, h')
    | inr later ↦
        rw later (All-insert_by _ before x os (λ e. h.0 (sym e)) h'.0, unique_insert x os h.1 h'.1)
  ]

  pub HasUniqueIds-sort_by :
      (os : List PaperOrder) → HasUniqueIds os → HasUniqueIds (sort_by before os)
  HasUniqueIds-sort_by [] h = tt
  HasUniqueIds-sort_by (o ∷ os) h =
      unique_insert o (sort_by before os) (All-sort_by _ before os h.0)
        (HasUniqueIds-sort_by os h.1)

-- An update leaves what the other keys find.
pub find_order-update_order :
    (i id : ℕ) (o : PaperOrder) (os : List PaperOrder)
    → o.order_id ≡ id
    → i ≢ id
    → find_order i (update_order id o os) ≡ find_order i os
find_order-update_order i id o [] e h = refl
find_order-update_order i id o (r ∷ os) e h = ground (arith, find_order-update_order i id o os e h)

-- The row that an update finds is counted before it, and the new row after it.
pub length-keep_if-update :
    (keep : PaperOrder → Bool) (id : ℕ) (old new : PaperOrder) (os : List PaperOrder)
    → find_order id os ≡ some old
    → keep old ≡ true
    → keep new ≡ false
    → length (keep_if keep os) ≡ suc (length (keep_if keep (update_order id new os)))
length-keep_if-update keep id old new [] found was is = cc
length-keep_if-update keep id old new (r ∷ os) found was is = elim (Bool-cases (r.order_id == id)) [
  | inl same ↦
      let e : some r ≡ some old = rw same at found in
      let kept : keep r ≡ true = rw (some_injective e) was in rw (same, kept, is) refl
  | inr other ↦
      let ih = length-keep_if-update keep id old new os (rw other at found) was is in
      elim (Bool-cases (keep r)) [
        | inl kept ↦ rw (other, kept, ih) refl
        | inr dropped ↦ rw (other, dropped) ih
      ]
]

-- A row that is found has the key.
pub find_order-id :
    (id : ℕ) (os : List PaperOrder) {o : PaperOrder} → find_order id os ≡ some o → o.order_id ≡ id
find_order-id id [] h = cc
find_order-id id (r ∷ os) {o} h = elim (Bool-cases (r.order_id == id)) [
  | inl same ↦
      let e : r ≡ o = some_injective (rw same at h) in rw (← e) ((==_iff r.order_id id).0 same)
  | inr other ↦ find_order-id id os (rw other at h)
]

-- The key finds the row that an update wrote.
pub find_order-updated :
    (id : ℕ) (old new : PaperOrder) (os : List PaperOrder)
    → find_order id os ≡ some old
    → new.order_id ≡ id
    → find_order id (update_order id new os) ≡ some new
find_order-updated id old new [] h e = cc
find_order-updated id old new (r ∷ os) h e = elim (Bool-cases (r.order_id == id)) [
  | inl same ↦ rw (same, e, ==_refl) refl
  | inr other ↦ rw (other, other) (find_order-updated id old new os (rw other at h) e)
]
