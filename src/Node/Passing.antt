-- ===== src/Node/Passing.antt =====
-- What the velocity guard node lets pass to the base.
use service_navigation_rbnx.Base.{Bool, true, ◌≡◌, Option, none, is_some, ◌⊎◌, arith}
use service_navigation_rbnx.Float.{Float}
use service_navigation_rbnx.Velocity.{bounded_linear_velocity}
use service_navigation_rbnx.Guard.Core.{Reason, RotationGuard, evaluate}
use service_navigation_rbnx.Guard.Latch.{evaluate_result}
use service_navigation_rbnx.Node.Handlers.{Node, Twist, zero_twist, limited_twist, on_cmd, trip}

module _ {R : Type 0} ⦃fl : Float R⦄ where
  -- The verdict of the guard on a command.
  abbrev pub verdict : R → Twist R → Node R → RotationGuard R × Option Reason
  verdict now msg n =
      let (x, y, limited) =
        bounded_linear_velocity msg.linear.0 msg.linear.1 n.effective_linear_speed_mps in
      evaluate now (fl.hypot x y) (limited_twist n.effective_linear_speed_mps msg).0.angular.2
        n.robot_pose n.goal_pose n.guard

  pub on_cmd_publishes :
      (now : R) (ready : Bool) (msg : Twist R) (n : Node R)
      → let r = on_cmd now ready msg n in
        ((r.node.guard.latched_reason ≡ none)
          × (r.published ≡ (limited_twist n.effective_linear_speed_mps msg).0))
        ⊎ ((is_some r.node.guard.latched_reason ≡ true) × (r.published ≡ zero_twist))
  unfolding on_cmd trip
  on_cmd_publishes now ready msg n = ground (
    arith,
    evaluate_result now
        (fl.hypot (bounded_linear_velocity msg.linear.0 msg.linear.1 n.effective_linear_speed_mps).0
          (bounded_linear_velocity msg.linear.0 msg.linear.1 n.effective_linear_speed_mps).1)
        (limited_twist n.effective_linear_speed_mps msg).0.angular.2 n.robot_pose n.goal_pose
        n.guard,
  )
