-- ===== src/Risk/Engine/Rules.antt =====
-- What a result without a rejecting or blocking rule says of each rule.
use taurus_agent.Base.{
  ℕ, ◌≤◌, ◌<◌, ◌≡◌, ◌⊎◌, refl, Bool, true, false, not, ◌&&◌, ◌||◌, List, [], ◌∷◌, ◌++◌, ◌==◌, ltb,
  leb, if◌then◌else◌, arith,
}
use taurus_agent.Base.Int.{pos, ltb_ℤ}
use taurus_agent.Risk.Schemas.{
  RiskRuleStatus, passed, warn, reduced, rejected, blocked, RiskReviewStatus,
  approved_with_reduction, TraderProposal, TraderAction, buy, sell, hold, no_trade, reduce, exit,
}
use taurus_agent.Risk.Graph.{status_severity}
use taurus_agent.Risk.Graph.Respected.{NoneRejects}
use taurus_agent.Risk.Engine.{
  RiskSession, RiskEngine, position_limits_for_settings, is_buy, action_is_valid,
  data_is_fresh_enough, severe_negative_event, is_none, is_supported, rule, paper_safe,
  capped_position, has_status, conclude_on, conclude, scalar_rules,
}

-- The statuses that let a decision proceed.
abbrev pub is_approval : RiskReviewStatus → Bool
is_approval RiskReviewStatus.approved = true
is_approval approved_with_reduction = true
is_approval RiskReviewStatus.rejected = false
is_approval RiskReviewStatus.blocked = false

conclude_on_approves :
    (b r c : Bool) (position : ℕ) (results : List RiskRuleStatus)
    → is_approval (conclude_on b r c position results).status ≡ true
    → (b ≡ false)
      × (r ≡ false)
      × ((conclude_on b r c position results).approved_position_pct_nav ≡ position)
unfolding conclude_on
conclude_on_approves true r c position results h = cc
conclude_on_approves false true c position results h = cc
conclude_on_approves false false true position results h = (refl, refl, refl)
conclude_on_approves false false false position results h = (refl, refl, refl)

none_rejects :
    (results : List RiskRuleStatus)
    → has_status blocked results ≡ false
    → has_status rejected results ≡ false
    → NoneRejects results
none_rejects [] b r = tt
none_rejects (passed ∷ rest) b r = (omega arith, none_rejects rest b r)
none_rejects (warn ∷ rest) b r = (omega arith, none_rejects rest b r)
none_rejects (reduced ∷ rest) b r = (omega arith, none_rejects rest b r)
none_rejects (rejected ∷ rest) b r = cc
none_rejects (blocked ∷ rest) b r = cc

-- An approval comes of rules of which none rejects or blocks.
pub conclude_approves :
    (position : ℕ) (results : List RiskRuleStatus)
    → is_approval (conclude position results).status ≡ true
    → NoneRejects results × ((conclude position results).approved_position_pct_nav ≡ position)
unfolding conclude
conclude_approves position results h =
    let (b, r, kept) = conclude_on_approves _ _ _ position results h in
    (none_rejects results b r, kept)

pub NoneRejects-append :
    (xs ys : List RiskRuleStatus) → NoneRejects (xs ++ ys) → NoneRejects xs × NoneRejects ys
NoneRejects-append [] ys h = (tt, h)
NoneRejects-append (x ∷ xs) ys h = let (a, b) = NoneRejects-append xs ys h.1 in ((h.0, a), b)

-- A rule whose failure rejects or blocks holds where nothing does.
rejects_unless : (ok : Bool) → status_severity (rule ok rejected) ≤ 2 → ok ≡ true
rejects_unless true h = refl
rejects_unless false h = absurd (omega arith)

blocks_unless : (ok : Bool) → status_severity (rule ok blocked) ≤ 2 → ok ≡ true
blocks_unless true h = refl
blocks_unless false h = absurd (omega arith)

-- What an action asks of its target, where `current` and `quantity` are held.
abbrev pub FitsAction : TraderAction → (target current quantity : ℕ) → Type 0
FitsAction buy target current quantity = current < target
FitsAction reduce target current quantity = (0 < quantity) × (0 < target) × (target < current)
FitsAction exit target current quantity = (0 < quantity) × (target ≡ 0)
FitsAction hold target current quantity = (0 < quantity) × (target ≡ current)
FitsAction no_trade target current quantity = (quantity ≡ 0) × (target ≡ 0)
FitsAction sell target current quantity = ⊥

valid-FitsAction :
    (action : TraderAction) (target current quantity : ℕ)
    → action_is_valid action target current (ltb 0 quantity) ≡ true
    → FitsAction action target current quantity
unfolding action_is_valid
valid-FitsAction buy target current quantity h = ground arith
valid-FitsAction reduce target current quantity h = (ground arith, ground arith, ground arith)
valid-FitsAction exit target current quantity h = (ground arith, ground arith)
valid-FitsAction hold target current quantity h = (ground arith, ground arith)
valid-FitsAction no_trade target current quantity h = (ground arith, ground arith)
valid-FitsAction sell target current quantity h = cc

-- What each rule has found.
pub record RulesHold (db : RiskSession) (e : RiskEngine) (now : ℕ) (p : TraderProposal)
    (trace_ok : Bool) : Type 0 where
  pub safe : paper_safe e.settings ≡ true
  pub switch_clear : e.kill_switch_enabled ≡ false
  pub supported : is_supported (db.instruments p.symbol) ≡ true
  pub traced : trace_ok ≡ true
  pub fits :
      FitsAction p.action p.target_position_pct_nav p.current_position_pct_nav
        p.current_position_quantity
  pub fresh : data_is_fresh_enough now p ≡ true
  pub raises :
      is_buy p.action ≡ true
      → p.current_position_pct_nav
        < capped_position p.action p.target_position_pct_nav
            (position_limits_for_settings e.limits).max_stock_pct_nav
  pub room :
      is_buy p.action ≡ true
      → (0 < p.current_position_quantity)
        ⊎ (e.current_open_positions < (position_limits_for_settings e.limits).max_open_positions)
  pub loss_below :
      is_buy p.action ≡ true → ltb_ℤ e.daily_loss_pct (pos e.settings.max_daily_loss_pct) ≡ true
  pub no_event : is_buy p.action ≡ true → is_none (severe_negative_event db.events p.symbol) ≡ true

pub if_true : {A : Type 0} (b : Bool) (x y : A) → b ≡ true → (if b then x else y) ≡ x
if_true b x y h = rw h refl

pub if_false : {A : Type 0} (b : Bool) (x y : A) → b ≡ false → (if b then x else y) ≡ y
if_false b x y h = rw h refl

pub and_false : (b c : Bool) → b ≡ false → (b && c) ≡ false
and_false b c h = rw h refl

not-true : (b : Bool) → not b ≡ true → b ≡ false
not-true b h = ground arith

implied : (b c : Bool) → (not b || c) ≡ true → b ≡ true → c ≡ true
implied b c h h' = ground arith

pub raised :
    (b : Bool) (capped current : ℕ)
    → not (b && leb capped current) ≡ true
    → b ≡ true
    → current < capped
raised b capped current h h' = ground arith

room_left :
    (held capped current opened most : ℕ)
    → current < capped
    → (ltb 0 held || (capped == 0 || ltb opened most)) ≡ true
    → (0 < held) ⊎ (opened < most)
room_left held capped current opened most h h' = ground arith

pub scalar_rules-RulesHold :
    (db : RiskSession) (e : RiskEngine) (now : ℕ) (p : TraderProposal) (trace_ok : Bool)
    → NoneRejects (scalar_rules db e now p trace_ok)
    → RulesHold db e now p trace_ok
unfolding scalar_rules
scalar_rules-RulesHold db e now p trace_ok n =
    let raises =
      raised (is_buy p.action) _ p.current_position_pct_nav (rejects_unless _ n.1.1.1.1.1.1.0) in
    record {
      safe = blocks_unless _ n.0;
      switch_clear = not-true _ (blocks_unless _ n.1.0);
      supported = rejects_unless _ n.1.1.0;
      traced = rejects_unless _ n.1.1.1.0;
      fits =
          valid-FitsAction p.action p.target_position_pct_nav p.current_position_pct_nav
            p.current_position_quantity (rejects_unless _ n.1.1.1.1.0);
      fresh = rejects_unless _ n.1.1.1.1.1.1.1.1.1.0;
      raises = raises;
      room = λ b.
          room_left _ _ _ _ _ (raises b)
            (implied (is_buy p.action) _ (rejects_unless _ n.1.1.1.1.1.1.1.0) b);
      loss_below = implied (is_buy p.action) _ (blocks_unless _ n.1.1.1.1.1.1.1.1.0);
      no_event = implied (is_buy p.action) _ (blocks_unless _ n.1.1.1.1.1.1.1.1.1.1.0);
    }
