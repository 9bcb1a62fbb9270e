-- ===== src/Node/Agreement.antt =====
-- The percentage that nav2_wrapper/atlas_bridge.py publishes, as nav2_wrapper/velocity_guard.py reads it.
use service_navigation_rbnx.Base.{true, false, ◌≡◌, arith, Bool-cases, inl, inr}
use service_navigation_rbnx.Float.{Float, FloatLaws, ◌<?◌, ◌≤?◌, min, max, whole}
use service_navigation_rbnx.Speed.Settings.{SpeedSettings}
use service_navigation_rbnx.Speed.Range.{InRange}
use service_navigation_rbnx.Bridge.Limit.{linear_speed}
use service_navigation_rbnx.Node.Handlers.{Node, on_speed_limit}

module _ {R : Type 0} ⦃fl : Float R⦄ (laws : FloatLaws R) where
  clamp_same :
      (p : R)
      → (whole 0 <? p) ≡ true
      → (p ≤? whole 100) ≡ true
      → (p ≤? p) ≡ true
      → min (whole 100) (max (whole 0) p) ≡ p
  clamp_same p pos hi ordered = elim (Bool-cases (p <? whole 100)) [
    | inl below ↦ ground arith
    | inr not_below ↦
        let same : p ≡ whole 100 = laws.le_antisym_pos p (whole 100) pos hi (
          laws.le_of_not_lt p (whole 100) ordered (laws.is_finite-le _ laws.is_finite-hundred)
            not_below) in
        ground arith
  ]

  -- On a positive percentage in the configured range, the final guard adopts exactly that percentage and
  -- limits the planar speed to what the bridge reports as the effective linear speed, when both read
  -- the same maximum.
  pub on_speed_limit_agrees :
      (s : SpeedSettings R) (p : R) (n : Node R)
      → InRange s p
      → (whole 0 <? p) ≡ true
      → n.max_linear_speed_mps ≡ s.max_linear_speed_mps
      → on_speed_limit p true n
        ≡ record n { speed_percentage = p; effective_linear_speed_mps = linear_speed s p }
  unfolding on_speed_limit linear_speed
  on_speed_limit_agrees s p n range pos same =
      let finite : fl.is_finite p ≡ true = range.finite in
      let not_negative : (p <? whole 0) ≡ false =
        laws.not_lt_of_le (whole 0) p (laws.lt-le _ _ pos) in
      let not_zero : fl.eq p (whole 0) ≡ false = laws.eq_of_lt p (whole 0) pos in
      ground (arith, clamp_same p pos range.le_hundred (laws.is_finite-le p finite))
