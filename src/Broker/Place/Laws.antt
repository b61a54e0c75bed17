-- ===== src/Broker/Place/Laws.antt =====
-- What `place_order` leaves in the session.
use taurus_agent.Base.{
  ℕ, ◌≡◌, refl, Bool, not, ◌&&◌, List, [], ◌∷◌, ◌++◌, arith, ◌==◌, All, keep_if, keep_if_twice,
}
use taurus_agent.Execution.{PaperAccount, PaperPosition}
use taurus_agent.Store.{Session}
use taurus_agent.Store.Writes.{
  delete_execution_for_final_decision, replace_account_state, upsert_account,
}
use taurus_agent.Broker.State.Rows.{IsRowOf}
use taurus_agent.Broker.Place.Commit.{Stored, commit}

-- The rows of one decision, and the rows of the others.
abbrev pub of_decision : ℕ → ℕ → Bool
of_decision decision row = row == decision

abbrev pub of_others : ℕ → ℕ → Bool
of_others decision row = not (row == decision)

module _ {A : Type 0} (key : A → ℕ) (d : ℕ) where
  -- What is cleared and then stored again holds no other row of the key.
  others_kept :
      (rows added : List A)
      → All (λ x. key x ≡ d) added
      → keep_if (λ x. of_others d (key x)) (keep_if (λ x. of_others d (key x)) rows ++ added)
        ≡ keep_if (λ x. of_others d (key x)) rows
  others_kept [] [] h = refl
  others_kept [] (x ∷ added) h = ground (arith, others_kept [] added h.1)
  others_kept (r ∷ rows) added h = ground (arith, others_kept rows added h)

  own_kept :
      (rows added : List A)
      → All (λ x. key x ≡ d) added
      → keep_if (λ x. of_decision d (key x)) (keep_if (λ x. of_others d (key x)) rows ++ added)
        ≡ added
  own_kept [] [] h = refl
  own_kept [] (x ∷ added) h = ground (arith, own_kept [] added h.1)
  own_kept (r ∷ rows) added h = ground (arith, own_kept rows added h)

-- The row with the account's key is written again.
upsert_twice :
    (a : PaperAccount) (rows : List PaperAccount)
    → upsert_account a (upsert_account a rows) ≡ upsert_account a rows
upsert_twice a [] = ground arith
upsert_twice a (r ∷ rows) = ground (arith, upsert_twice a rows)

-- The position rows of a run and portfolio.
abbrev pub is_row_of : (run_id portfolio_id : ℕ) → PaperPosition → Bool
is_row_of run_id portfolio_id p = p.run_id == run_id && p.portfolio_id == portfolio_id

rows_replaced :
    (run_id portfolio_id : ℕ) (rows added : List PaperPosition)
    → All (IsRowOf run_id portfolio_id) added
    → keep_if
        (λ p. not (is_row_of run_id portfolio_id p))
        (keep_if (λ p. not (is_row_of run_id portfolio_id p)) rows ++ added)
      ≡ keep_if (λ p. not (is_row_of run_id portfolio_id p)) rows
rows_replaced run_id portfolio_id [] [] h = refl
rows_replaced run_id portfolio_id [] (p ∷ added) h =
    ground (arith, rows_replaced run_id portfolio_id [] added h.1)
rows_replaced run_id portfolio_id (p ∷ rows) added h =
    ground (arith, rows_replaced run_id portfolio_id rows added h)

module _ (db : Session) (out : Stored) where
  abbrev decision_of : ℕ
  decision_of = out.order.final_decision_id

  module _ (fills_d : All (λ f. f.final_decision_id ≡ decision_of) out.fills)
      (log_d : out.log.final_decision_id ≡ decision_of) where
    -- A commit leaves the rows of other decisions as they were.
    pub commit_others :
        (keep_if (λ o. of_others decision_of o.final_decision_id) (commit db out).orders
          ≡ keep_if (λ o. of_others decision_of o.final_decision_id) db.orders)
        × (keep_if (λ f. of_others decision_of f.final_decision_id) (commit db out).fills
            ≡ keep_if (λ f. of_others decision_of f.final_decision_id) db.fills)
        × (keep_if (λ a. of_others decision_of a.final_decision_id) (commit db out).audit
            ≡ keep_if (λ a. of_others decision_of a.final_decision_id) db.audit)
    unfolding commit delete_execution_for_final_decision replace_account_state
    commit_others = (
      others_kept (λ o. o.final_decision_id) decision_of db.orders (out.order ∷ []) (refl, tt),
      others_kept (λ f. f.final_decision_id) decision_of db.fills out.fills fills_d,
      others_kept (λ a. a.final_decision_id) decision_of db.audit (out.log ∷ []) (log_d, tt),
    )

    -- Of the decision itself it keeps just what it brings.
    pub commit_own :
        (keep_if (λ o. of_decision decision_of o.final_decision_id) (commit db out).orders
          ≡ out.order ∷ [])
        × (keep_if (λ f. of_decision decision_of f.final_decision_id) (commit db out).fills
            ≡ out.fills)
    unfolding commit delete_execution_for_final_decision replace_account_state
    commit_own = (
      own_kept (λ o. o.final_decision_id) decision_of db.orders (out.order ∷ []) (refl, tt),
      own_kept (λ f. f.final_decision_id) decision_of db.fills out.fills fills_d,
    )

    -- What is committed on top of the same commit changes nothing.
    pub commit_twice :
        All (IsRowOf out.order.run_id out.order.portfolio_id) out.positions
        → commit (commit db out) out ≡ commit db out
    unfolding commit delete_execution_for_final_decision replace_account_state
    commit_twice rows =
        rw
          (
            commit_others.0,
            commit_others.1,
            commit_others.2,
            rows_replaced out.order.run_id out.order.portfolio_id db.positions out.positions rows,
            upsert_twice out.account db.accounts,
          )
          refl

  pub commit_cleared :
      commit (delete_execution_for_final_decision db decision_of) out ≡ commit db out
  unfolding commit delete_execution_for_final_decision replace_account_state
  commit_cleared =
      rw
        (
          keep_if_twice (λ o. of_others decision_of o.final_decision_id) db.orders,
          keep_if_twice (λ f. of_others decision_of f.final_decision_id) db.fills,
          keep_if_twice (λ a. of_others decision_of a.final_decision_id) db.audit,
        )
        refl
