-- ===== src/Store/Storable.antt =====
-- db/models.py: what the keys and constraints of the execution tables ask of their rows.
use taurus_agent.Base.{
  ℕ, Bool, true, false, not, ◌&&◌, ◌||◌, List, [], ◌∷◌, ◌≡◌, refl, ◌↔◌, ◌⊎◌, inl, inr, ◌==◌, ==_iff,
  any_of, map, All,
}
use taurus_agent.Store.Tables.{Session}
use taurus_agent.Store.Constraints.{
  distinct, refers, orders_meet, fills_meet, positions_meet, accounts_meet, meets_constraints,
}

-- No row shares a key with a later one.
abbrev pub Unshared : {Row : Type 0} → (Shared : Row → Row → Type 0) → List Row → Type 0
Unshared Shared [] = Unit
Unshared Shared (row ∷ rows) = All (λ later. ¬ (Shared row later)) rows × Unshared Shared rows

-- A key is listed.
abbrev pub IsListed : List ℕ → ℕ → Type 0
IsListed [] key = ⊥
IsListed (k ∷ keys) key = (k ≡ key) ⊎ IsListed keys key

-- An order has an id and a final decision of its own; the decision and the instrument exist.
pub record OrdersStorable (db : Session) : Type 0 where
  pub ids : Unshared (λ a b. a.order_id ≡ b.order_id) db.orders
  pub decisions : Unshared (λ a b. a.final_decision_id ≡ b.final_decision_id) db.orders
  pub decided : All (λ o. IsListed db.final_decision_ids o.final_decision_id) db.orders
  pub known : All (λ o. IsListed db.instruments o.symbol) db.orders

-- A fill has an id, and a place in its order, of its own; the order and the instrument exist.
pub record FillsStorable (db : Session) : Type 0 where
  pub ids : Unshared (λ a b. a.fill_id ≡ b.fill_id) db.fills
  pub places :
      Unshared (λ a b. (a.order_id ≡ b.order_id) × (a.fill_sequence ≡ b.fill_sequence)) db.fills
  pub ordered : All (λ f. IsListed (map (λ o. o.order_id) db.orders) f.order_id) db.fills
  pub known : All (λ f. IsListed db.instruments f.symbol) db.fills

-- A run holds a symbol once, of an instrument that exists, and has one account.
pub record BooksStorable (db : Session) : Type 0 where
  pub holdings : Unshared (λ a b. (a.run_id ≡ b.run_id) × (a.symbol ≡ b.symbol)) db.positions
  pub known : All (λ p. IsListed db.instruments p.symbol) db.positions
  pub account_ids : Unshared (λ a b. a.account_id ≡ b.account_id) db.accounts
  pub runs : Unshared (λ a b. a.run_id ≡ b.run_id) db.accounts

-- The rows that the database takes.
abbrev pub IsStorable : Session → Type 0
IsStorable db = OrdersStorable db × FillsStorable db × BooksStorable db

and_iff :
    {P Q : Type 0} (a b : Bool) → (a ≡ true) ↔ P → (b ≡ true) ↔ Q → ((a && b) ≡ true) ↔ (P × Q)
and_iff true b (f, g) (h, k) = ((λ e. (f refl, h e)), (λ x. k x.1))
and_iff false b (f, g) (h, k) = ((λ e. cc), (λ x. let x' = g x.0 in cc))

any_of-all :
    {Row : Type 0} (test : Row → Bool) (Holds : Row → Type 0)
    → ((r : Row) → (test r ≡ true) ↔ Holds r)
    → (rows : List Row) → (not (any_of test rows) ≡ true) ↔ All (λ r. ¬ (Holds r)) rows
any_of-all test Holds iff [] = ((λ e. tt), (λ x. refl))
any_of-all test Holds iff (r ∷ rows) =
    head_and_rest (test r) (any_of test rows) (iff r) (any_of-all test Holds iff rows)
  where
    head_and_rest :
        {P Q : Type 0} (a b : Bool)
        → (a ≡ true) ↔ P
        → (not b ≡ true) ↔ Q
        → (not (a || b) ≡ true) ↔ ((¬ P) × Q)
    head_and_rest true b (f, g) (h, k) = ((λ e. cc), (λ x. absurd (x.0 (f refl))))
    head_and_rest false b (f, g) (h, k) = ((λ e. ((λ p. let e' = g p in cc), h e)), (λ x. k x.1))

distinct_iff :
    {Row : Type 0} (same : Row → Row → Bool) (Shared : Row → Row → Type 0)
    → ((a b : Row) → (same a b ≡ true) ↔ Shared a b)
    → (rows : List Row) → (distinct same rows ≡ true) ↔ Unshared Shared rows
distinct_iff same Shared iff [] = ((λ e. tt), (λ x. refl))
distinct_iff same Shared iff (r ∷ rows) =
    and_iff _ _ (any_of-all (same r) (Shared r) (iff r) rows) (distinct_iff same Shared iff rows)

listed_iff : (key : ℕ) (keys : List ℕ) → (any_of (λ k. k == key) keys ≡ true) ↔ IsListed keys key
listed_iff key [] = ((λ e. cc), (λ x. absurd x))
listed_iff key (k ∷ keys) = either (k == key) _ (==_iff k key) (listed_iff key keys)
  where
    either :
        {P Q : Type 0} (a b : Bool) → (a ≡ true) ↔ P → (b ≡ true) ↔ Q → ((a || b) ≡ true) ↔ (P ⊎ Q)
    either true b (f, g) (h, k) = ((λ e. inl (f refl)), (λ x. refl))
    either false b (f, g) (h, k) =
        ((λ e. inr (h e)), (λ x. elim x [ inl p ↦ (let e = g p in cc) | inr q ↦ k q ]))

refers_iff :
    {Row : Type 0} (key : Row → ℕ) (keys : List ℕ) (rows : List Row)
    → (refers key keys rows ≡ true) ↔ All (λ r. IsListed keys (key r)) rows
refers_iff key keys [] = ((λ e. tt), (λ x. refl))
refers_iff key keys (r ∷ rows) = and_iff _ _ (listed_iff (key r) keys) (refers_iff key keys rows)

-- A key of one column.
column_iff :
    {Row : Type 0} (key : Row → ℕ) (rows : List Row)
    → (distinct (λ a b. key a == key b) rows ≡ true) ↔ Unshared (λ a b. key a ≡ key b) rows
column_iff key = distinct_iff _ _ (λ a b. ==_iff (key a) (key b))

-- A key of two columns.
columns_iff :
    {Row : Type 0} (key part : Row → ℕ) (rows : List Row)
    → (distinct (λ a b. key a == key b && part a == part b) rows ≡ true)
      ↔ Unshared (λ a b. (key a ≡ key b) × (part a ≡ part b)) rows
columns_iff key part =
    distinct_iff _ _ (λ a b. and_iff _ _ (==_iff (key a) (key b)) (==_iff (part a) (part b)))

orders_iff : (db : Session) → (orders_meet db ≡ true) ↔ OrdersStorable db
unfolding orders_meet
orders_iff db =
    let (holds, meets) =
      and_iff _ _
        (and_iff _ _
          (and_iff _ _ (column_iff (λ o. o.order_id) db.orders)
            (column_iff (λ o. o.final_decision_id) db.orders))
          (refers_iff (λ o. o.final_decision_id) db.final_decision_ids db.orders))
        (refers_iff (λ o. o.symbol) db.instruments db.orders) in
    (
      (λ e.
          let x = holds e in
          record { ids = x.0.0.0; decisions = x.0.0.1; decided = x.0.1; known = x.1 }),
      (λ r. meets (((r.ids, r.decisions), r.decided), r.known)),
    )

fills_iff : (db : Session) → (fills_meet db ≡ true) ↔ FillsStorable db
unfolding fills_meet
fills_iff db =
    let (holds, meets) =
      and_iff _ _
        (and_iff _ _
          (and_iff _ _ (column_iff (λ f. f.fill_id) db.fills)
            (columns_iff (λ f. f.order_id) (λ f. f.fill_sequence) db.fills))
          (refers_iff (λ f. f.order_id) (map (λ o. o.order_id) db.orders) db.fills))
        (refers_iff (λ f. f.symbol) db.instruments db.fills) in
    (
      (λ e.
          let x = holds e in
          record { ids = x.0.0.0; places = x.0.0.1; ordered = x.0.1; known = x.1 }),
      (λ r. meets (((r.ids, r.places), r.ordered), r.known)),
    )

books_iff :
    (db : Session) → ((positions_meet db ≡ true) × (accounts_meet db ≡ true)) ↔ BooksStorable db
unfolding positions_meet accounts_meet
books_iff db =
    let (held, meets_held) =
      and_iff _ _ (columns_iff (λ p. p.run_id) (λ p. p.symbol) db.positions)
        (refers_iff (λ p. p.symbol) db.instruments db.positions) in
    let (kept, meets_kept) =
      and_iff _ _ (column_iff (λ a. a.account_id) db.accounts)
        (column_iff (λ a. a.run_id) db.accounts) in
    (
      (λ e.
          let p = held e.0 in
          let a = kept e.1 in
          record { holdings = p.0; known = p.1; account_ids = a.0; runs = a.1 }),
      (λ r. (meets_held (r.holdings, r.known), meets_kept (r.account_ids, r.runs))),
    )

pub meets_constraints_iff : (db : Session) → (meets_constraints db ≡ true) ↔ IsStorable db
unfolding meets_constraints
meets_constraints_iff db =
    let (holds, meets) =
      and_iff _ (accounts_meet db)
        (and_iff _ (positions_meet db) (and_iff _ _ (orders_iff db) (fills_iff db))
          ((λ e. e), (λ e. e)))
        ((λ e. e), (λ e. e)) in
    (
      (λ e. let x = holds e in (x.0.0.0, x.0.0.1, (books_iff db).0 (x.0.1, x.1))),
      (λ x. let books = (books_iff db).1 x.2 in meets (((x.0, x.1), books.0), books.1)),
    )
