-- ===== src/Bridge/Pump/Tests.antt =====
-- Lines of processes on a bridge over fixed-point numbers, and an instance of the theorem on them.
use service_navigation_rbnx.Base.{ℕ, String, ◌≡◌, refl, none, some, true, List, [], ◌∷◌, ◌++◌}
use service_navigation_rbnx.Int.{ℤ, pos}
use service_navigation_rbnx.Fixed.{fixed}
use service_navigation_rbnx.Dict.{lookup}
use service_navigation_rbnx.Bounded.{last_of}
use service_navigation_rbnx.Params.{occurs}
use service_navigation_rbnx.Replace.{index, is_prefix}
use service_navigation_rbnx.Diagnostics.Lines.{classify_nav2_line}
use service_navigation_rbnx.Diagnostics.{format_result_detail}
use service_navigation_rbnx.Bridge.State.{running, failed, aborted, Bridge, session}
use service_navigation_rbnx.Bridge.Runs.{returned, entry, clear_diagnostics, result}
use service_navigation_rbnx.Bridge.Pump.{pump_line, pump_lines, diagnostics_of, result_reports}

-- A run on its way, with a diagnostic of an earlier one.
abbrev busy : Bridge ℤ ℕ
busy = record {
  ros_ready = true;
  action_ready = true;
  initialized = true;
  goal_states = ("r", entry running "goal accepted") ∷ [];
  goal_handles = ("r", 7) ∷ [];
  nav_queue = [];
  diagnostics = "Spin failed" ∷ [];
  costmap = none;
  last_run_id = "r";
  speed = record {
    settings = none;
    percentage = pos 75_000_000;
    session_percentage = pos 75_000_000;
    scope = session;
    scope_run_id = "";
    subscriber_connected = true;
    nav2_limit = none;
    guard_limit = none;
  };
}

abbrev lines : List (String × String)
lines =
    ("nav2", "Failed to make progress ")
    ∷ ("velocity_guard", "collision ahead")
    ∷ ("nav2", "ok")
    ∷ []

result_reports_example :
    lookup "r"
      (result (returned aborted) "r" (pump_lines lines (clear_diagnostics busy))).goal_states
    ≡ some (
        entry failed
          (format_result_detail {R = ℤ} "aborted" none (last_of 12 (diagnostics_of lines) ++ [])))
unfolding lookup pump_line classify_nav2_line occurs index is_prefix clear_diagnostics
result_reports_example =
    result_reports lines "r" busy (pump_lines lines (clear_diagnostics busy))
      (entry running "goal accepted") refl refl
