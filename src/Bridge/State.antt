-- ===== src/Bridge/State.antt =====
-- The module state of nav2_wrapper/atlas_bridge.py that the navigation and speed handlers share.
use service_navigation_rbnx.Base.{ℕ, String, Bool, true, false, Option, List, ◌=?◌, if◌then◌else◌}
use service_navigation_rbnx.Int.{ℤ}
use service_navigation_rbnx.Dict.{Dict}
use service_navigation_rbnx.Diagnostics.{Feedback, show_int}
use service_navigation_rbnx.Speed.Settings.{SpeedSettings}

-- The "state" of a run.
pub data RunState : Type 0 where
  pending running succeeded failed canceled : RunState

abbrev pub lower_name : RunState → String
lower_name pending = "pending"
lower_name running = "running"
lower_name succeeded = "succeeded"
lower_name failed = "failed"
lower_name canceled = "canceled"

-- `state in {"SUCCEEDED", "FAILED", "CANCELED"}`
abbrev pub is_terminal : RunState → Bool
is_terminal pending = false
is_terminal running = false
is_terminal _ = true

-- `state in {"PENDING", "RUNNING"}`
abbrev pub is_active : RunState → Bool
is_active pending = true
is_active running = true
is_active _ = false

-- An entry of `_goal_states`; a missing "cancel_requested" is false and a missing "feedback" `none`.
pub record GoalState (R : Type 0) : Type 0 where
  pub state : RunState
  pub detail : String
  pub cancel_requested : Bool
  pub feedback : Option (Feedback R)

-- The pose that a queued goal asks for.
pub record Payload (R : Type 0) : Type 0 where
  pub frame_id : String
  pub x : R
  pub y : R
  pub yaw : R

pub data Scope : Type 0 where
  session goal : Scope

-- `_speed_settings` and the variables under `_speed_lock`; the last limit published on each of the two
-- channels stands for what Nav2 and the final guard apply.
pub record SpeedState (R : Type 0) : Type 0 where
  pub settings : Option (SpeedSettings R)
  pub percentage : R
  pub session_percentage : R
  pub scope : Scope
  pub scope_run_id : String
  pub subscriber_connected : Bool
  pub nav2_limit : Option R
  pub guard_limit : Option R

-- `H` is the type of the goal handles that the action client returns.
pub record Bridge (R H : Type 0) : Type 0 where
  pub ros_ready : Bool
  pub action_ready : Bool
  pub initialized : Bool
  pub goal_states : Dict (GoalState R)
  pub goal_handles : Dict H
  pub nav_queue : List (String × Payload R)
  pub diagnostics : List String
  -- data, width, height and resolution of the latest local costmap
  pub costmap : Option (List ℤ × ℕ × ℕ × R)
  pub last_run_id : String
  pub speed : SpeedState R

-- The status codes of `action_msgs/GoalStatus`, and any other number.
pub data Nav2Status : Type 0 where
  unknown accepted executing canceling succeeded canceled aborted : Nav2Status
  other : ℤ → Nav2Status

-- `_goal_status_name(status).lower()`
unfoldable pub goal_status_name : Nav2Status → String
goal_status_name unknown = "unknown"
goal_status_name accepted = "accepted"
goal_status_name executing = "executing"
goal_status_name canceling = "canceling"
goal_status_name succeeded = "succeeded"
goal_status_name canceled = "canceled"
goal_status_name aborted = "aborted"
goal_status_name (other n) = show_int n

-- `_canonical_state(_goal_status_name(status))`
unfoldable pub canonical_state : Nav2Status → RunState
canonical_state unknown = RunState.running
canonical_state accepted = RunState.running
canonical_state executing = RunState.running
canonical_state canceling = RunState.running
canonical_state succeeded = RunState.succeeded
canonical_state canceled = RunState.canceled
canonical_state aborted = RunState.failed
canonical_state (other n) = RunState.failed

-- `_resolve_run_id`
unfoldable pub resolve_run_id : {R H : Type 0} → String → Bridge R H → String
resolve_run_id run_id b = if run_id =? "" then b.last_run_id else run_id
