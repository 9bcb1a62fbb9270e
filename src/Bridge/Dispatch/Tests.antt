-- ===== src/Bridge/Dispatch/Tests.antt =====
-- A round of the dispatcher over fixed-point numbers, and an instance of its theorem.
use service_navigation_rbnx.Base.{ℕ, ◌≡◌, refl, none, some, true, [], ◌∷◌, map}
use service_navigation_rbnx.Int.{ℤ, pos}
use service_navigation_rbnx.Fixed.{fixed}
use service_navigation_rbnx.Dict.{lookup, insert}
use service_navigation_rbnx.Bridge.State.{pending, canceled, Bridge, Payload, session}
use service_navigation_rbnx.Bridge.Runs.{
  entry, cancel_requested, claim, clear_diagnostics, mark_sent,
}
use service_navigation_rbnx.Bridge.Limit.{delivered}
use service_navigation_rbnx.Bridge.Service.Failure.{state_of}
use service_navigation_rbnx.Bridge.Dispatch.{
  make_pose, send_claimed, dispatch_goal, dispatch_all, drain,
}
use service_navigation_rbnx.Bridge.Dispatch.Drained.{wanted_goals, drain_sends}

abbrev to : ℤ → Payload ℤ
to x = record { frame_id = "map"; x = x; y = pos 0; yaw = pos 0 }

-- Three requests, of which the second was canceled.
abbrev waiting : Bridge ℤ ℕ
waiting = record {
  ros_ready = true;
  action_ready = true;
  initialized = true;
  goal_states =
      ("a", entry pending "queued")
      ∷ ("b", record (entry canceled "canceled before dispatch") { cancel_requested = true })
      ∷ ("c", entry pending "queued")
      ∷ [];
  goal_handles = [];
  nav_queue = ("a", to (pos 1)) ∷ ("b", to (pos 2)) ∷ ("c", to (pos 3)) ∷ [];
  diagnostics = [];
  costmap = none;
  last_run_id = "c";
  speed = record {
    settings = none;
    percentage = pos 75_000_000;
    session_percentage = pos 75_000_000;
    scope = session;
    scope_run_id = "";
    subscriber_connected = true;
    nav2_limit = none;
    guard_limit = none;
  };
}

dispatch_code : Unit {0}
unfolding lookup insert cancel_requested claim clear_diagnostics mark_sent make_pose send_claimed
    dispatch_goal dispatch_all drain
dispatch_code = tt

two_sent : map (λ p. p.x) (drain delivered waiting).1 ≡ pos 1 ∷ pos 3 ∷ []
unfolding dispatch_code
two_sent = refl

drain_sends_example :
    ((drain delivered waiting).1 ≡ wanted_goals waiting waiting.nav_queue)
    × ((drain delivered waiting).0.nav_queue ≡ [])
    × (state_of "b" (drain delivered waiting).0 ≡ some canceled)
unfolding dispatch_code
drain_sends_example = drain_sends delivered waiting "b" refl
