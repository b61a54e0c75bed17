-- ===== src/Allocation/Brakes.antt =====
-- What the drawdown governors do to a purchase.
use taurus_agent.Base.{
  ℕ, ◌-◌, ◌≤◌, ◌<◌, ◌≡◌, refl, true, false, List, [], ◌∷◌, none, some, leb, if◌then◌else◌, All,
  All-map, All-sort_by, All-unsort, sort_by, arith, Bool-cases, ◌∙◌, inl, inr,
}
use taurus_agent.Money.Context.{round_half_even}
use taurus_agent.Policy.Schema.{
  SleevePolicy, DrawdownGovernorPolicy, DrawdownGovernorAction, MoneyManagementPolicy,
  reduce_new_position_sizes_25_pct, reduce_new_position_sizes_50_pct, stop_experimental_new_entries,
  freeze_new_buys_allow_exits, experimental_models,
}
use taurus_agent.Policy.Sections.{hundred}
use taurus_agent.Allocation.Input.{ActiveAllocationInput}
use taurus_agent.Allocation.Governors.{
  Brake, no_brake, act, apply_governors, exceeds, apply_sleeve, governor_before, evaluate_governors,
  sleeve_snapshot_for, snapshot_drawdown, portfolio_drawdown,
}

-- The second brake is at least as tight as the first.
abbrev IsTighter : Brake → Brake → Type 0
IsTighter b b' = (b'.scale_factor ≤ b.scale_factor) × (b.frozen ≡ true → b'.frozen ≡ true)

-- What a governor that is exceeded brings about.
abbrev pub Acts : (sleeve_id : ℕ) → DrawdownGovernorAction → Brake → Type 0
Acts sleeve_id reduce_new_position_sizes_25_pct b = b.scale_factor ≤ 7_500
Acts sleeve_id reduce_new_position_sizes_50_pct b = b.scale_factor ≤ 5_000
Acts sleeve_id stop_experimental_new_entries b = sleeve_id ≡ experimental_models → b.frozen ≡ true
Acts sleeve_id freeze_new_buys_allow_exits b = b.frozen ≡ true

act-IsTighter : (id : ℕ) (a : DrawdownGovernorAction) (b : Brake) → IsTighter b (act id a b)
unfolding act
act-IsTighter id reduce_new_position_sizes_25_pct b = (omega arith, λ h. h)
act-IsTighter id reduce_new_position_sizes_50_pct b = (omega arith, λ h. h)
act-IsTighter id stop_experimental_new_entries b = (ground arith, λ h. ground arith)
act-IsTighter id freeze_new_buys_allow_exits b = (omega arith, λ h. refl)

act-Acts : (id : ℕ) (a : DrawdownGovernorAction) (b : Brake) → Acts id a (act id a b)
unfolding act
act-Acts id reduce_new_position_sizes_25_pct b = omega arith
act-Acts id reduce_new_position_sizes_50_pct b = omega arith
act-Acts id stop_experimental_new_entries b = λ h. ground arith
act-Acts id freeze_new_buys_allow_exits b = refl

Acts-tighter :
    (id : ℕ) (a : DrawdownGovernorAction) (b b' : Brake)
    → IsTighter b b'
    → Acts id a b
    → Acts id a b'
Acts-tighter id reduce_new_position_sizes_25_pct b b' t h = omega (arith, t.0)
Acts-tighter id reduce_new_position_sizes_50_pct b b' t h = omega (arith, t.0)
Acts-tighter id stop_experimental_new_entries b b' t h = λ e. t.1 (h e)
Acts-tighter id freeze_new_buys_allow_exits b b' t h = t.1 h

IsTighter-trans : (a b c : Brake) → IsTighter a b → IsTighter b c → IsTighter a c
IsTighter-trans a b c (s, f) (s', f') = (omega arith, λ h. f' (f h))

module _ (id drawdown : ℕ) where
  abbrev step : DrawdownGovernorPolicy → Brake → Brake
  step g b = if leb drawdown g.drawdown_pct then b else act id g.action b

  step-IsTighter : (g : DrawdownGovernorPolicy) (b : Brake) → IsTighter b (step g b)
  step-IsTighter g b = elim (Bool-cases (leb drawdown g.drawdown_pct)) [
    | inl within ↦ rw within (omega arith, λ h. h)
    | inr beyond ↦ rw beyond (act-IsTighter id g.action b)
  ]

  governors-IsTighter :
      (gs : List DrawdownGovernorPolicy) (b : Brake)
      → IsTighter b (apply_governors id drawdown gs b)
  unfolding apply_governors
  governors-IsTighter [] b = (omega arith, λ h. h)
  governors-IsTighter (g ∷ gs) b =
      IsTighter-trans b (step g b) (apply_governors id drawdown gs (step g b)) (step-IsTighter g b)
        (governors-IsTighter gs (step g b))

  -- Every governor that is exceeded has its effect.
  abbrev pub AllAct : Brake → List DrawdownGovernorPolicy → Type 0
  AllAct b = All (λ g. g.drawdown_pct < drawdown → Acts id g.action b)

  governors-AllAct :
      (gs : List DrawdownGovernorPolicy) (b : Brake) → AllAct (apply_governors id drawdown gs b) gs
  unfolding apply_governors
  governors-AllAct [] b = tt
  governors-AllAct (g ∷ gs) b = (
    λ h.
        let beyond : leb drawdown g.drawdown_pct ≡ false = ground arith in
        rw beyond (
          Acts-tighter id g.action (act id g.action b)
            (apply_governors id drawdown gs (act id g.action b))
            (governors-IsTighter gs (act id g.action b)) (act-Acts id g.action b)),
    governors-AllAct gs (step g b),
  )

  governors_idle :
      (gs : List DrawdownGovernorPolicy) (b : Brake)
      → All (λ g. drawdown ≤ g.drawdown_pct) gs
      → apply_governors id drawdown gs b ≡ b
  unfolding apply_governors
  governors_idle [] b h = refl
  governors_idle (g ∷ gs) b h =
      let within : leb drawdown g.drawdown_pct ≡ true = ground (arith, h.0) in
      rw within (governors_idle gs b h.1)

-- The size that the sleeve's own reduction leaves.
abbrev pub reduced_size : SleevePolicy → ℕ
reduced_size s = round_half_even (hundred - s.drawdown_reduce_size_pct) 100

sleeve-IsTighter :
    (s : SleevePolicy) (drawdown : ℕ) (b : Brake) → IsTighter b (apply_sleeve s drawdown b)
unfolding apply_sleeve
sleeve-IsTighter s drawdown b =
    elim (Bool-cases (exceeds drawdown s.drawdown_reduce_threshold_pct)) [
      | inl deep ↦ elim (Bool-cases (exceeds drawdown s.drawdown_freeze_threshold_pct)) [
        | inl deeper ↦ rw (deep, deeper) (omega arith, λ h. refl)
        | inr held ↦ rw (deep, held) (omega arith, λ h. h)
      ]
      | inr shallow ↦ elim (Bool-cases (exceeds drawdown s.drawdown_freeze_threshold_pct)) [
        | inl deeper ↦ rw (shallow, deeper) (omega arith, λ h. refl)
        | inr held ↦ rw (shallow, held) (omega arith, λ h. h)
      ]
    ]

sleeve_freezes :
    (s : SleevePolicy) (drawdown : ℕ) (b : Brake)
    → exceeds drawdown s.drawdown_freeze_threshold_pct ≡ true
    → (apply_sleeve s drawdown b).frozen ≡ true
unfolding apply_sleeve
sleeve_freezes s drawdown b h = rw h refl

sleeve_reduces :
    (s : SleevePolicy) (drawdown : ℕ) (b : Brake)
    → exceeds drawdown s.drawdown_reduce_threshold_pct ≡ true
    → (apply_sleeve s drawdown b).scale_factor ≤ reduced_size s
unfolding apply_sleeve
sleeve_reduces s drawdown b h =
    elim (Bool-cases (exceeds drawdown s.drawdown_freeze_threshold_pct)) [
      | inl deeper ↦ rw (h, deeper) (omega arith)
      | inr held ↦ rw (h, held) (omega arith)
    ]

sleeve_idle :
    (s : SleevePolicy) (drawdown : ℕ) (b : Brake)
    → exceeds drawdown s.drawdown_reduce_threshold_pct ≡ false
    → exceeds drawdown s.drawdown_freeze_threshold_pct ≡ false
    → apply_sleeve s drawdown b ≡ b
unfolding apply_sleeve
sleeve_idle s drawdown b h h' = rw (h, h') refl

-- The drawdown of the sleeve by the first snapshot of it, if any.
abbrev pub own_drawdown : ActiveAllocationInput → SleevePolicy → ℕ
own_drawdown i s = elim (sleeve_snapshot_for i s.sleeve_id) [
  | none ↦ 0
  | some snapshot ↦ snapshot_drawdown snapshot
]

-- What a brake does about a drawdown of the portfolio and one of the sleeve.
pub record Brakes (s : SleevePolicy) (policy : MoneyManagementPolicy) (portfolio own : ℕ)
    (b : Brake) : Type 0 where
  pub scale : b.scale_factor ≤ 10_000
  pub governors : AllAct s.sleeve_id portfolio b policy.drawdown_governors
  pub own_freeze : exceeds own s.drawdown_freeze_threshold_pct ≡ true → b.frozen ≡ true
  pub own_reduction :
      exceeds own s.drawdown_reduce_threshold_pct ≡ true → b.scale_factor ≤ reduced_size s
  pub idle :
      All (λ g. portfolio ≤ g.drawdown_pct) policy.drawdown_governors
      → exceeds own s.drawdown_reduce_threshold_pct ≡ false
      → exceeds own s.drawdown_freeze_threshold_pct ≡ false
      → b ≡ no_brake

-- What the evaluation promises: it brakes for the drawdowns of its input, and reports these.
abbrev pub IsBraked : ActiveAllocationInput → SleevePolicy → MoneyManagementPolicy → Type 0
IsBraked i s policy =
    Brakes s policy (portfolio_drawdown i) (own_drawdown i s) (evaluate_governors i s policy).brake
    × ((evaluate_governors i s policy).portfolio_drawdown_pct ≡ portfolio_drawdown i)
    × ((evaluate_governors i s policy).sleeve_drawdown_pct ≡ own_drawdown i s)

All-tighter :
    (id drawdown : ℕ) (b b' : Brake) (gs : List DrawdownGovernorPolicy)
    → IsTighter b b'
    → AllAct id drawdown b gs
    → AllAct id drawdown b' gs
All-tighter id drawdown b b' gs t = All-map _ _ gs (λ g h e. Acts-tighter id g.action b b' t (h e))

-- The brake on a purchase is at most the full size. Each governor whose threshold the drawdown of
-- the portfolio's value from its starting value is beyond has its effect: the size is cut to 75 or
-- 50 percent, or purchases are frozen, of which one action concerns the experimental sleeve only.
-- The thresholds of the sleeve freeze and reduce likewise by the drawdown of the sleeve's snapshot.
-- Where no threshold is passed, there is no brake. The evaluation reports these two drawdowns.
pub evaluate_governors-IsBraked :
    (i : ActiveAllocationInput) (s : SleevePolicy) (policy : MoneyManagementPolicy)
    → IsBraked i s policy
unfolding evaluate_governors
evaluate_governors-IsBraked i s policy =
    let portfolio = portfolio_drawdown i in
    let own = own_drawdown i s in
    let gs = sort_by governor_before policy.drawdown_governors in
    let b = apply_governors s.sleeve_id portfolio gs no_brake in
    let tight = sleeve-IsTighter s own b in
    (
      record {
        scale = omega (arith, tight.0, (governors-IsTighter s.sleeve_id portfolio gs no_brake).0);
        governors = All-unsort _ governor_before policy.drawdown_governors (
            All-tighter s.sleeve_id portfolio b (apply_sleeve s own b) gs tight
              (governors-AllAct s.sleeve_id portfolio gs no_brake));
        own_freeze = sleeve_freezes s own b;
        own_reduction = sleeve_reduces s own b;
        idle = λ calm h h'.
            sleeve_idle s own b h h'
            ∙ governors_idle s.sleeve_id portfolio gs no_brake
                (All-sort_by _ governor_before policy.drawdown_governors calm);
      },
      refl,
      refl,
    )
