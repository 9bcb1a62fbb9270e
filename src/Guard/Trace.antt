-- ===== src/Guard/Trace.antt =====
-- The calls that the velocity guard node makes on its `RotationGuard`, in any order.
use service_navigation_rbnx.Base.{String, Option, List, [], ◌∷◌}
use service_navigation_rbnx.Float.{Float}
use service_navigation_rbnx.Guard.Core.{
  RotationGuard, Pose, begin_goal, clear_if_idle, observe_odom, evaluate,
}

pub data Call (R : Type 0) : Type 0 where
  begins : String → Call R
  clears : Call R
  observes : R → Call R
  evaluates : R → R → R → Option (Pose R) → Option (Pose R) → Call R

module _ {R : Type 0} ⦃fl : Float R⦄ where
  unfoldable pub step : Call R → RotationGuard R → RotationGuard R
  step (begins uuid) g = begin_goal uuid g
  step clears g = clear_if_idle g
  step (observes yaw) g = observe_odom yaw g
  step (evaluates now lin ang robot goal) g = (evaluate now lin ang robot goal g).0

  unfoldable pub run : List (Call R) → RotationGuard R → RotationGuard R
  run [] g = g
  run (c ∷ cs) g = run cs (step c g)
