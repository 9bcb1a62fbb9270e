-- ===== src/Speed/Range.antt =====
-- The range of the percentage that a decision of nav2_wrapper/speed_control.py returns.
use service_navigation_rbnx.Base.{
  String, true, ◌≡◌, refl, inl, inr, some, arith, Bool-cases, Option-cases, ◌↔◌,
}
use service_navigation_rbnx.Float.{Float, FloatLaws, ◌⊕◌, ◌⊖◌, ◌<?◌, ◌≤?◌, whole}
use service_navigation_rbnx.Speed.Settings.{SpeedSettings, ok}
use service_navigation_rbnx.Speed.Decide.{
  SpeedDecision, Direction, faster, slower, normal, read_direction, decision, target_of,
  decide_adjustment, decide_explicit,
}
use service_navigation_rbnx.Speed.Bounds.{IsValid}

-- What holds of the current percentage at any time: it is finite, at most 100 and, in the six
-- decimals that a decision keeps, at least the configured minimum.
pub record InRange {R : Type 0} ⦃fl : Float R⦄ (s : SpeedSettings R) (p : R) : Type 0 where
  pub finite : fl.is_finite p ≡ true
  pub above_min : fl.le (fl.round_6 s.min_percentage) (fl.round_6 p) ≡ true
  pub le_hundred : fl.le p (whole 100) ≡ true

module _ {R : Type 0} ⦃fl : Float R⦄ (laws : FloatLaws R) (s : SpeedSettings R)
    (valid : IsValid s) where
  min_le_hundred : (s.min_percentage ≤? whole 100) ≡ true
  min_le_hundred = laws.le_trans _ _ _ valid.min_le_default valid.default_le_hundred

  InRange-of_le : (p : R) → (s.min_percentage ≤? p) ≡ true → (p ≤? whole 100) ≡ true → InRange s p
  InRange-of_le p lo hi = record {
    finite = laws.is_finite_between _ _ _ valid.finite_min laws.is_finite-hundred lo hi;
    above_min = laws.round_6_mono _ _ lo;
    le_hundred = hi;
  }

  InRange-of_current :
      (c p : R) → InRange s c → (c ≤? p) ≡ true → (p ≤? whole 100) ≡ true → InRange s p
  InRange-of_current c p h lo hi = record {
    finite = laws.is_finite_between _ _ _ h.finite laws.is_finite-hundred lo hi;
    above_min = laws.le_trans _ _ _ h.above_min (laws.round_6_mono _ _ lo);
    le_hundred = hi;
  }

  target_of-InRange : (d : Direction) (c : R) → InRange s c → InRange s (target_of d c s)
  unfolding target_of
  target_of-InRange faster c h = elim (Bool-cases ((c ⊕ s.step_percentage) <? whole 100)) [
    | inl below ↦ rw below (
        InRange-of_current c _ h
          (laws.le-add_pos _ _ h.finite valid.finite_step valid.step_positive)
          (laws.lt-le _ _ below))
    | inr above ↦
        rw above (InRange-of_le _ min_le_hundred (laws.is_finite-le _ laws.is_finite-hundred))
  ]
  target_of-InRange slower c h = elim (Bool-cases (s.min_percentage <? (c ⊖ s.step_percentage))) [
    | inl above ↦ rw above (
        InRange-of_le _ (laws.lt-le _ _ above) (
          laws.le_trans _ _ _ (laws.sub_pos-le _ _ h.finite valid.finite_step valid.step_positive)
            h.le_hundred))
    | inr below ↦ rw below (InRange-of_le _ (laws.is_finite-le _ valid.finite_min) min_le_hundred)
  ]
  target_of-InRange normal c h = InRange-of_le _ valid.min_le_default valid.default_le_hundred

  round_6-InRange : (p : R) → InRange s p → InRange s (fl.round_6 p)
  round_6-InRange p h = record {
    finite = laws.is_finite-round_6 p h.finite;
    above_min = rw (laws.round_6-round_6 p) h.above_min;
    le_hundred = rw laws.round_6-hundred at (laws.round_6_mono p (whole 100) h.le_hundred);
  }

  faster-le : (c : R) → InRange s c → (fl.round_6 c ≤? fl.round_6 (target_of faster c s)) ≡ true
  unfolding target_of
  faster-le c h = elim (Bool-cases ((c ⊕ s.step_percentage) <? whole 100)) [
    | inl below ↦
        rw below (
          laws.round_6_mono _ _
            (laws.le-add_pos _ _ h.finite valid.finite_step valid.step_positive))
    | inr above ↦ rw above (laws.round_6_mono _ _ h.le_hundred)
  ]

  slower-le : (c : R) → InRange s c → (fl.round_6 (target_of slower c s) ≤? fl.round_6 c) ≡ true
  unfolding target_of
  slower-le c h = elim (Bool-cases (s.min_percentage <? (c ⊖ s.step_percentage))) [
    | inl above ↦
        rw above (
          laws.round_6_mono _ _
            (laws.sub_pos-le _ _ h.finite valid.finite_step valid.step_positive))
    | inr below ↦ rw below h.above_min
  ]

  -- The default percentage of valid settings is in range.
  pub default-InRange : InRange s s.default_percentage
  default-InRange = InRange-of_le _ valid.min_le_default valid.default_le_hundred

  decide_adjustment_percentage :
      (c : R) (direction : String) (d : SpeedDecision R)
      → decide_adjustment c direction s ≡ ok d
      → (k : Direction) × (read_direction direction ≡ some k)
        × (d.percentage ≡ fl.round_6 (target_of k c s))
  unfolding decide_adjustment decision
  decide_adjustment_percentage c direction d e = elim (Option-cases (read_direction direction)) [
    | inl none_read ↦ ground arith
    | inr (k, read) ↦ (k, read, ground arith)
  ]

  -- From valid settings and a current percentage in range, every accepted relative command (`faster`,
  -- `slower` or `normal`) decides on a percentage that is in range again.
  pub decide_adjustment-InRange :
      (c : R) (direction : String) (d : SpeedDecision R)
      → InRange s c
      → decide_adjustment c direction s ≡ ok d
      → InRange s d.percentage
  decide_adjustment-InRange c direction d h e =
      let (k, _, p) = decide_adjustment_percentage c direction d e in
      rw p (round_6-InRange _ (target_of-InRange k c h))

  -- An explicit request is accepted exactly when it is finite and lies between the minimum and 100,
  -- and the decision then has the request, rounded to six decimals, as its percentage, which is in
  -- range.
  pub decide_explicit_iff :
      (c p : R)
      → ((d : SpeedDecision R) × (decide_explicit c p s ≡ ok d)
          × (d.percentage ≡ fl.round_6 p)
          × InRange s d.percentage)
        ↔ (fl.is_finite p ≡ true) × ((s.min_percentage ≤? p) ≡ true) × ((p ≤? whole 100) ≡ true)
  unfolding decide_explicit
  decide_explicit_iff c p = (
    λ h. ground arith,
    λ h. (
      decision c p s "explicit set",
      ground arith,
      unfold decision in refl,
      unfold decision in round_6-InRange p (InRange-of_le p h.1 h.2),
    ),
  )

  -- From valid settings and a current percentage in range, `faster` never decides on less than the
  -- current percentage, in the six decimals that a decision keeps.
  pub decide_faster-le :
      (c : R) (direction : String) (d : SpeedDecision R)
      → InRange s c
      → read_direction direction ≡ some faster
      → decide_adjustment c direction s ≡ ok d
      → (fl.round_6 c ≤? d.percentage) ≡ true
  decide_faster-le c direction d h f e =
      let (k, read, p) = decide_adjustment_percentage c direction d e in
      let q : k ≡ faster = cc in rw (p, q) (faster-le c h)

  -- From valid settings and a current percentage in range, `slower` never decides on more than the
  -- current percentage, in the six decimals that a decision keeps.
  pub decide_slower-le :
      (c : R) (direction : String) (d : SpeedDecision R)
      → InRange s c
      → read_direction direction ≡ some slower
      → decide_adjustment c direction s ≡ ok d
      → (d.percentage ≤? fl.round_6 c) ≡ true
  decide_slower-le c direction d h f e =
      let (k, read, p) = decide_adjustment_percentage c direction d e in
      let q : k ≡ slower = cc in rw (p, q) (slower-le c h)
