-- ===== src/Store/Constraints.antt =====
-- db/models.py: the primary keys, the unique constraints and the foreign keys of the tables that
-- paper execution writes.
use taurus_agent.Base.{
  ℕ, Bool, true, not, ◌&&◌, List, [], ◌∷◌, ◌==◌, any_of, map, Result, ok, raise_if, ◌>>◌,
  constraint_violated,
}
use taurus_agent.Store.Tables.{Session}

-- No row has the key of a later one.
abbrev pub distinct {ℓ} : {Row : Type ℓ} → (same : Row → Row → Bool) → List Row → Bool
distinct same [] = true
distinct same (row ∷ rows) = not (any_of (same row) rows) && distinct same rows

-- Every row refers to a listed key.
abbrev pub refers {ℓ} : {Row : Type ℓ} → (key : Row → ℕ) → (keys : List ℕ) → List Row → Bool
refers key keys [] = true
refers key keys (row ∷ rows) = any_of (λ k. k == key row) keys && refers key keys rows

-- The constraints of `PaperOrderModel`.
unfoldable pub orders_meet : Session → Bool
orders_meet db =
    distinct (λ a b. a.order_id == b.order_id) db.orders
    && distinct (λ a b. a.final_decision_id == b.final_decision_id) db.orders
    && refers (λ o. o.final_decision_id) db.final_decision_ids db.orders
    && refers (λ o. o.symbol) db.instruments db.orders

-- The constraints of `PaperFillModel`.
unfoldable pub fills_meet : Session → Bool
fills_meet db =
    distinct (λ a b. a.fill_id == b.fill_id) db.fills
    && distinct (λ a b. a.order_id == b.order_id && a.fill_sequence == b.fill_sequence) db.fills
    && refers (λ f. f.order_id) (map (λ o. o.order_id) db.orders) db.fills
    && refers (λ f. f.symbol) db.instruments db.fills

-- The constraints of `PaperPositionModel`.
unfoldable pub positions_meet : Session → Bool
positions_meet db =
    distinct (λ a b. a.run_id == b.run_id && a.symbol == b.symbol) db.positions
    && refers (λ p. p.symbol) db.instruments db.positions

-- The constraints of `PaperAccountModel`.
unfoldable pub accounts_meet : Session → Bool
accounts_meet db =
    distinct (λ a b. a.account_id == b.account_id) db.accounts
    && distinct (λ a b. a.run_id == b.run_id) db.accounts

unfoldable pub meets_constraints : Session → Bool
unfolding orders_meet fills_meet positions_meet accounts_meet
meets_constraints db = orders_meet db && fills_meet db && positions_meet db && accounts_meet db

-- What the database makes of the rows of a call. It checks them as the session is flushed, and
-- `IntegrityError` ends the call and leaves nothing of it; a write deletes old rows before it adds
-- new ones, so the rows that the call would commit decide.
unfoldable pub flush : Session → Result Session
unfolding meets_constraints
flush db = do raise_if (not (meets_constraints db)) constraint_violated; ok db
