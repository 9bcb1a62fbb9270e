-- ===== src/Bridge/Service/Tests.antt =====
-- Calls on a bridge over fixed-point numbers, and instances of the theorems on what it serves.
use service_navigation_rbnx.Base.{ℕ, ◌≡◌, refl, inr, none, true, [], ◌∷◌, ne_of_test}
use service_navigation_rbnx.Int.{ℤ, pos}
use service_navigation_rbnx.Fixed.{fixed}
use service_navigation_rbnx.Dict.{lookup, insert}
use service_navigation_rbnx.Bridge.State.{running, Bridge, session, resolve_run_id}
use service_navigation_rbnx.Bridge.Runs.{Goal, raised, entry, navigate, cancel, issue_cancel}
use service_navigation_rbnx.Bridge.Limit.{delivered}
use service_navigation_rbnx.Bridge.World.{World, Reach, here, next, IsStart, submitting}
use service_navigation_rbnx.Bridge.World
use service_navigation_rbnx.Bridge.Service.{
  Surround, cancels, serve, navigates, navigate_impl, finish_cancel, cancel_impl, or_raises, tool,
}
use service_navigation_rbnx.Bridge.Service.Failure.{Untouched, tool-Untouched}
use service_navigation_rbnx.Bridge.Service.Journey.{navigate_then_cancel}
use service_navigation_rbnx.Bridge.Service.Steps.{serve-Reach}

-- A run with the handle 7 is on its way.
abbrev busy : Bridge ℤ ℕ
busy = record {
  ros_ready = true;
  action_ready = true;
  initialized = true;
  goal_states = ("r", entry running "goal accepted") ∷ [];
  goal_handles = ("r", 7) ∷ [];
  nav_queue = [];
  diagnostics = [];
  costmap = none;
  last_run_id = "r";
  speed = record {
    settings = none;
    percentage = pos 75_000_000;
    session_percentage = pos 75_000_000;
    scope = session;
    scope_run_id = "";
    subscriber_connected = true;
    nav2_limit = none;
    guard_limit = none;
  };
}

-- Requests of cancels raise, and the next run is `n`.
abbrev surround : Surround
surround = record {
  new_run_id = "n";
  cancel_request = raised "down";
  restoring = delivered;
  changing = delivered;
  channels = true;
}

service_code : Unit {0}
unfolding navigate cancel issue_cancel lookup insert resolve_run_id navigate_impl finish_cancel
    cancel_impl or_raises tool serve
service_code = tt

tool-Untouched_example : Untouched busy (tool surround (cancels "") busy).0
unfolding service_code
tool-Untouched_example = tool-Untouched surround (cancels "") busy "cancel failed: down" refl

abbrev target : Goal ℤ
target = record { frame_id = ""; x = pos 1; y = pos 2; z = pos 0; w = pos 1 }

navigate_then_cancel_example :
    let b₁ = (tool surround (navigates target) busy).0 in
    let b₂ = (tool surround (cancels "") b₁).0 in
    tool surround (cancels "") b₂ ≡ (b₂, raised "run is already canceled")
unfolding service_code
navigate_then_cancel_example =
    (navigate_then_cancel surround target busy "" refl (ne_of_test "n" "" refl) refl (inr refl)).4

-- No run yet, and then a run "r" whose queue entry is still to come.
abbrev idle : World ℤ ℕ
idle = record {
  bridge = record busy { goal_states = []; goal_handles = []; last_run_id = "" };
  stages = [];
  restores = [];
  committing = none;
}

abbrev started : World ℤ ℕ
started = record idle { bridge = (navigate "r" idle.bridge).0; stages = ("r", submitting) ∷ [] }

idle-IsStart : IsStart idle
idle-IsStart = record {
  no_runs = refl;
  no_stages = refl;
  no_queue = refl;
  no_restores = refl;
  no_commit = refl;
  of_session = refl;
}

Reach-started : Reach idle started
unfolding service_code
Reach-started = next here (World.navigates "r" (ne_of_test "r" "" refl) refl refl refl)

serve-Reach_example :
    (v : World ℤ ℕ) × Reach started v
    × (v.bridge ≡ (serve surround (cancels "") started.bridge).0)
    × (v.bridge ≡ (tool surround (cancels "") started.bridge).0)
    × (v.committing ≡ none)
unfolding service_code
serve-Reach_example =
    serve-Reach idle-IsStart refl Reach-started refl surround (ne_of_test "n" "" refl) refl
      (cancels "")
