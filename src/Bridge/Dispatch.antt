-- ===== src/Bridge/Dispatch.antt =====
-- `_dispatch_goal` of nav2_wrapper/atlas_bridge.py as a whole, and the loop of `_start_ros2_thread` that
-- empties the queue with it, with nothing between the critical sections; `send_goal_async` does not raise.
pub mod Sent
pub mod Drained
mod Tests
use service_navigation_rbnx.Base.{String, Bool, true, false, List, [], ◌∷◌, ◌++◌, if◌then◌else◌}
use service_navigation_rbnx.Float.{Float, ◌⊘◌, whole}
use service_navigation_rbnx.Bridge.State.{Bridge, Payload}
use service_navigation_rbnx.Bridge.Runs.{claim, not_ready, clear_diagnostics, mark_sent}
use service_navigation_rbnx.Bridge.Limit.{Publish, restore_speed_after_run}

-- The goal that is sent, whose stamp is 0 and whose other fields are 0.
pub record Pose (R : Type 0) : Type 0 where
  pub frame_id : String
  pub x : R
  pub y : R
  pub orientation_z : R
  pub orientation_w : R

-- `_make_pose`
unfoldable pub make_pose : {R : Type 0} ⦃fl : Float R⦄ → Payload R → Pose R
make_pose ⦃fl⦄ p = record {
  frame_id = p.frame_id;
  x = p.x;
  y = p.y;
  orientation_z = fl.sin (p.yaw ⊘ whole 2);
  orientation_w = fl.cos (p.yaw ⊘ whole 2);
}

module _ {R H : Type 0} ⦃fl : Float R⦄ (restoring : Publish) where
  -- `_dispatch_goal` on a run that is claimed.
  unfoldable pub send_claimed : String → Payload R → Bridge R H → Bridge R H × List (Pose R)
  unfolding make_pose
  send_claimed gid payload b =
      let lost = not_ready gid b in
      if b.action_ready
      then (mark_sent gid (clear_diagnostics b), make_pose payload ∷ [])
      else (record lost { speed = restore_speed_after_run restoring gid lost.speed }, [])

  -- `_dispatch_goal`, with the goal that is sent, if one is.
  unfoldable pub dispatch_goal : String × Payload R → Bridge R H → Bridge R H × List (Pose R)
  unfolding send_claimed
  dispatch_goal (gid, payload) b =
      let (b', claimed) = claim gid b in if claimed then send_claimed gid payload b' else (b', [])

  -- The inner loop of `_run`, on the entries that it takes from the queue.
  unfoldable pub dispatch_all : List (String × Payload R) → Bridge R H → Bridge R H × List (Pose R)
  unfolding dispatch_goal
  dispatch_all [] b = (b, [])
  dispatch_all (entry ∷ entries) b =
      let (b₁, sent) = dispatch_goal entry b in
      let (b₂, later) = dispatch_all entries b₁ in (b₂, sent ++ later)

  unfoldable pub drain : Bridge R H → Bridge R H × List (Pose R)
  unfolding dispatch_all
  drain b = dispatch_all b.nav_queue (record b { nav_queue = [] })
