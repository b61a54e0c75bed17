-- ===== src/Broker/State/Posted.antt =====
-- `list_fills_by_portfolio` of db/repositories.py, as what the replay reads.
use taurus_agent.Base.{
  ℕ, ◌≤◌, ◌≡◌, refl, List, [], ◌∷◌, arith, ◌==◌, ==_iff, ◌∙◌, if◌then◌else◌, inl, inr, Bool-cases,
  All, All-map, All-sort_by, All-insert_by, keep_if, keep_if-All, sum_by, sum_by-sort_by, insert_by,
  sort_by,
}
use taurus_agent.Execution.{PaperFill}
use taurus_agent.Store.{Session}
use taurus_agent.Store.Queries.{fill_before, list_fills_by_portfolio}

-- No fill is later than one that follows it.
abbrev pub InTime : List PaperFill → Type 0
InTime [] = Unit
InTime (f ∷ fs) = All (λ later. f.filled_at ≤ later.filled_at) fs × InTime fs

insert-InTime :
    (f : PaperFill) (fs : List PaperFill) → InTime fs → InTime (insert_by fill_before f fs)
insert-InTime f [] h = (tt, tt)
insert-InTime f (g ∷ fs) (first, rest) = elim (Bool-cases (fill_before f g)) [
  | inl before ↦
      let earlier : f.filled_at ≤ g.filled_at = ground arith in
      rw before
        ((earlier, All-map _ _ fs (λ later h. omega (arith, h, earlier)) first), (first, rest))
  | inr after ↦
      let earlier : g.filled_at ≤ f.filled_at = ground arith in
      rw after (All-insert_by _ fill_before f fs earlier first, insert-InTime f fs rest)
]

sort-InTime : (fs : List PaperFill) → InTime (sort_by fill_before fs)
sort-InTime [] = tt
sort-InTime (f ∷ fs) = insert-InTime f _ (sort-InTime fs)

sum_by-own :
    (weight : PaperFill → ℕ) (portfolio_id : ℕ) (fs : List PaperFill)
    → sum_by weight (keep_if (λ f. f.portfolio_id == portfolio_id) fs)
      ≡ sum_by (λ f. if f.portfolio_id == portfolio_id then weight f else 0) fs
sum_by-own weight portfolio_id [] = refl
sum_by-own weight portfolio_id (f ∷ fs) = ground (arith, sum_by-own weight portfolio_id fs)

-- The fills of a portfolio among the stored ones: each is the portfolio's own, they are in the
-- order of their times, and they weigh together what the portfolio's stored fills weigh.
pub record IsPosted (weight : PaperFill → ℕ) (portfolio_id : ℕ) (stored fills : List PaperFill)
    : Type 0 where
  pub own : All (λ f. f.portfolio_id ≡ portfolio_id) fills
  pub in_time : InTime fills
  pub complete :
      sum_by weight fills
      ≡ sum_by (λ f. if f.portfolio_id == portfolio_id then weight f else 0) stored

pub list_fills-IsPosted :
    (weight : PaperFill → ℕ) (db : Session) (portfolio_id : ℕ)
    → IsPosted weight portfolio_id db.fills (list_fills_by_portfolio db portfolio_id)
unfolding list_fills_by_portfolio
list_fills-IsPosted weight db portfolio_id =
    let kept = keep_if (λ f. f.portfolio_id == portfolio_id) db.fills in
    record {
      own = All-sort_by _ fill_before kept (
          All-map _ _ kept (λ f h. (==_iff f.portfolio_id portfolio_id).0 h)
            (keep_if-All (λ f. f.portfolio_id == portfolio_id) db.fills));
      in_time = sort-InTime kept;
      complete = sum_by-sort_by fill_before weight kept ∙ sum_by-own weight portfolio_id db.fills;
    }
