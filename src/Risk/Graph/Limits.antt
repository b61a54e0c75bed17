-- ===== src/Risk/Graph/Limits.antt =====
-- The approved position against the limits of the groups.
use taurus_agent.Base.{
  ℕ, ◌+◌, ◌*◌, ◌≤◌, ◌<◌, ◌≡◌, List, [], ◌∷◌, leb, map, sort_by, All, All-sort_by, arith, Bool-cases,
  inl, inr,
}
use taurus_agent.Money.Context.{round_half_even}
use taurus_agent.Risk.Schemas.{RiskRuleStatus}
use taurus_agent.Risk.Graph.{
  GraphExposurePolicy, ExposureGroup, ExposureDecision, Exposures, existing_exposure,
  status_and_approved, decision_for_group, status_severity, decision_before, decide_exposure,
  apply_policy,
}
use taurus_agent.Risk.Graph.Worst.{
  IsDecided, status-IsDecided, severity_of, IsWorse, worst_of-IsWorse, worst_of-All,
}

module _ (policy : GraphExposurePolicy) (exposures : Exposures) (proposed fraction : ℕ)
    (positive : 0 < proposed) where
  -- The decision is one on its group.
  IsSettled : ExposureDecision → Type 0
  IsSettled d =
      IsDecided policy.limit_pct_nav proposed (existing_exposure exposures d.group)
        d.projected_exposure_pct_nav d.approved_position_pct_nav (severity_of d)

  abbrev decide : ExposureGroup → ExposureDecision
  decide = decision_for_group policy exposures proposed fraction

  decide-IsDecided :
      (g : ExposureGroup)
      → IsDecided policy.limit_pct_nav proposed
          (existing_exposure exposures g)
          (decide g).projected_exposure_pct_nav
          (decide g).approved_position_pct_nav
          (severity_of (decide g))
  unfolding decision_for_group
  decide-IsDecided g =
      status-IsDecided (existing_exposure exposures g) proposed policy.limit_pct_nav
        (round_half_even (policy.limit_pct_nav * fraction) 10_000) positive

  decide-IsSettled : (g : ExposureGroup) → IsSettled (decide g)
  unfolding decision_for_group IsSettled
  decide-IsSettled g = decide-IsDecided g

  All-IsSettled : (gs : List ExposureGroup) → All IsSettled (map decide gs)
  All-IsSettled [] = tt
  All-IsSettled (g ∷ gs) = (decide-IsSettled g, All-IsSettled gs)

  -- The worst decision's position keeps every group within the limit, unless it is a rejection.
  group_within :
      (w : ExposureDecision) (g : ExposureGroup)
      → IsSettled w
      → severity_of w ≤ 2
      → IsWorse w (decide g)
      → existing_exposure exposures g + w.approved_position_pct_nav ≤ policy.limit_pct_nav
  unfolding IsSettled
  group_within w g settled small (not_above, not_beyond) =
      let d = decide-IsDecided g in
      elim (Bool-cases (leb (severity_of w) 1)) [
        | inl whole ↦
            let (fits, kept) = settled.kept (ground arith) in
            let (fits', kept') = d.kept (ground arith) in omega arith
        | inr cut ↦
            let is_cut : severity_of w ≡ 2 = ground arith in
            let (filled, some_left) = settled.cut is_cut in
            elim (Bool-cases (leb (severity_of (decide g)) 1)) [
              | inl whole' ↦
                  let (fits', kept') = d.kept (ground arith) in
                  let within = settled.within in omega arith
              | inr cut' ↦
                  let both : severity_of (decide g) ≡ severity_of w = ground arith in
                  let behind = not_beyond both in
                  let e = settled.projection in let e' = d.projection in omega arith
            ]
      ]

  groups_within :
      (w : ExposureDecision) (gs : List ExposureGroup)
      → IsSettled w
      → severity_of w ≤ 2
      → All (IsWorse w) (map decide gs)
      → All
          (λ g. existing_exposure exposures g + w.approved_position_pct_nav ≤ policy.limit_pct_nav)
          gs
  groups_within w [] settled small worse = tt
  groups_within w (g ∷ gs) settled small worse =
      (group_within w g settled small worse.0, groups_within w gs settled small worse.1)

  decide_exposure-IsSettled :
      (g : ExposureGroup) (gs : List ExposureGroup)
      → IsSettled (decide_exposure policy exposures proposed fraction g gs)
  unfolding decide_exposure
  decide_exposure-IsSettled g gs =
      worst_of-All IsSettled (decide g) (sort_by decision_before (map decide (g ∷ gs)))
        (decide-IsSettled g)
        (All-sort_by IsSettled decision_before (map decide (g ∷ gs)) (All-IsSettled (g ∷ gs)))

  decide_exposure-IsWorse :
      (g : ExposureGroup) (gs : List ExposureGroup)
      → All
          (IsWorse (decide_exposure policy exposures proposed fraction g gs))
          (map decide (g ∷ gs))
  unfolding decide_exposure
  decide_exposure-IsWorse g gs = worst_of-IsWorse (decide g) (decide g) (map decide gs)

  settled_pos :
      (w : ExposureDecision) → IsSettled w → severity_of w ≤ 2 → 0 < w.approved_position_pct_nav
  unfolding IsSettled
  settled_pos w settled h = elim (Bool-cases (leb (severity_of w) 1)) [
    | inl whole ↦ let (fits, kept) = settled.kept (ground arith) in omega arith
    | inr cut ↦ (settled.cut (ground arith)).1
  ]

  settled_within : (w : ExposureDecision) → IsSettled w → w.approved_position_pct_nav ≤ proposed
  unfolding IsSettled
  settled_within w settled = settled.within

  -- After a policy: the position has not grown, and is cut to what every group has left.
  pub record IsApplied (gs : List ExposureGroup) (next : ℕ) (status : RiskRuleStatus) : Type 0 where
    pub shrunk : next ≤ proposed
    pub positive_left : status_severity status ≤ 2 → 0 < next
    pub groups_fit :
        status_severity status ≤ 2
        → All (λ g. existing_exposure exposures g + next ≤ policy.limit_pct_nav) gs

  pub apply_policy-IsApplied :
      (gs : List ExposureGroup)
      → let r = apply_policy policy exposures proposed fraction gs in IsApplied gs r.0 r.1
  unfolding apply_policy
  apply_policy-IsApplied [] = record {
    shrunk = omega arith;
    positive_left = λ h. positive;
    groups_fit = λ h. tt;
  }
  apply_policy-IsApplied (g ∷ gs) =
      let w = decide_exposure policy exposures proposed fraction g gs in
      let settled = decide_exposure-IsSettled g gs in
      record {
        shrunk = settled_within w settled;
        positive_left = λ h. settled_pos w settled h;
        groups_fit = λ h. groups_within w (g ∷ gs) settled h (decide_exposure-IsWorse g gs);
      }

module _ (policy : GraphExposurePolicy) (exposures : Exposures) (proposed fraction : ℕ) where
  decide_le :
      (g : ExposureGroup)
      → (decision_for_group policy exposures proposed fraction g).approved_position_pct_nav
        ≤ proposed
  unfolding decision_for_group status_and_approved
  decide_le g = ground arith

  decide_le-All :
      (gs : List ExposureGroup)
      → All
          (λ d. d.approved_position_pct_nav ≤ proposed)
          (map (decision_for_group policy exposures proposed fraction) gs)
  decide_le-All [] = tt
  decide_le-All (g ∷ gs) = (decide_le g, decide_le-All gs)

  -- A policy never lets a position grow.
  pub apply_policy-le :
      (gs : List ExposureGroup) → (apply_policy policy exposures proposed fraction gs).0 ≤ proposed
  unfolding apply_policy decide_exposure
  apply_policy-le [] = omega arith
  apply_policy-le (g ∷ gs) =
      let decide = decision_for_group policy exposures proposed fraction in
      worst_of-All (λ d. d.approved_position_pct_nav ≤ proposed) (decide g)
        (sort_by decision_before (map decide (g ∷ gs))) (decide_le g)
        (All-sort_by (λ d. d.approved_position_pct_nav ≤ proposed) decision_before
          (map decide (g ∷ gs)) (decide_le-All (g ∷ gs)))
