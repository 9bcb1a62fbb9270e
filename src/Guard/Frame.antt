-- ===== src/Guard/Frame.antt =====
-- What the bookkeeping steps of `evaluate` leave alone.
use service_navigation_rbnx.Base.{◌≡◌, arith}
use service_navigation_rbnx.Float.{Float}
use service_navigation_rbnx.Guard.Core.{RotationGuard, start_spin, mark_spin, start_terminal}

-- Two guards serve the same goal, in the same mode, under the same latch.
pub record Same {R : Type 0} (g h : RotationGuard R) : Type 0 where
  pub latched_reason : h.latched_reason ≡ g.latched_reason
  pub goal_uuid : h.goal_uuid ≡ g.goal_uuid
  pub limits : h.limits ≡ g.limits
  pub rotating : h.rotating ≡ g.rotating
  pub last_odom_yaw : h.last_odom_yaw ≡ g.last_odom_yaw

module _ {R : Type 0} ⦃fl : Float R⦄ where
  pub start_spin-Same : (now : R) (g : RotationGuard R) → Same g (start_spin now g)
  unfolding start_spin
  start_spin-Same now g = ground arith

  pub mark_spin-Same : (now : R) (g : RotationGuard R) → Same g (mark_spin now g)
  unfolding mark_spin
  mark_spin-Same now g = ground arith

  pub spun-Same : (now : R) (g : RotationGuard R) → Same g (mark_spin now (start_spin now g))
  spun-Same now g = ground (arith, start_spin-Same now g, mark_spin-Same now (start_spin now g))

  pub start_terminal-Same : (now yaw : R) (g : RotationGuard R) → Same g (start_terminal now yaw g)
  unfolding start_terminal
  start_terminal-Same now yaw g = ground arith
