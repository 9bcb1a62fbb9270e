-- ===== src/Guard/Core.antt =====
-- `GuardLimits`, `RotationGuard` and its methods.
use service_navigation_rbnx.Base.{
  String, Bool, true, false, not, ◌&&◌, Option, none, some, ◌=?◌, if◌then◌else◌, List, [], ◌∷◌, ltb,
  ◌==◌, length,
}
use service_navigation_rbnx.Int.{ℤ, pos, negsuc}
use service_navigation_rbnx.Float.{Float, ◌⊕◌, ◌⊖◌, ◌<?◌, ◌≤?◌, max, whole}

-- The messages that `_trip` latches.
pub data Reason : Type 0 where
  spin_timeout spin_limit terminal_timeout terminal_limit no_progress : Reason

abbrev pub text : Reason → String
text spin_timeout = "continuous stationary rotation timeout"
text spin_limit = "continuous stationary rotation limit"
text terminal_timeout = "terminal rotation timeout"
text terminal_limit = "terminal cumulative rotation limit"
text no_progress = "terminal yaw made no progress"

pub record GuardLimits (R : Type 0) : Type 0 where
  pub terminal_xy_m : R
  pub rotating_linear_mps : R
  pub rotating_angular_rps : R
  pub terminal_timeout_s : R
  pub terminal_rotation_margin_rad : R
  pub terminal_no_progress_s : R
  pub terminal_min_progress_rad : R
  pub global_spin_timeout_s : R
  pub global_spin_limit_rad : R
  pub global_min_progress_rad : R

pub record RotationGuard (R : Type 0) : Type 0 where
  pub limits : GuardLimits R
  pub goal_uuid : String
  pub latched_reason : Option Reason
  pub spin_started_at : Option R
  pub spin_rotation : R
  pub spin_progress_rotation : R
  pub last_spin_progress_at : Option R
  pub terminal_started_at : Option R
  pub terminal_rotation : R
  pub terminal_allowed_rotation : R
  pub best_yaw_error : R
  pub last_progress_at : Option R
  pub last_odom_yaw : Option R
  pub rotating : Bool

-- x, y and yaw.
abbrev pub Pose : Type 0 → Type 0
Pose R = R × R × R

module _ {R : Type 0} ⦃fl : Float R⦄ where
  unfoldable pub shortest_angle : R → R → R
  shortest_angle source target = fl.atan2 (fl.sin (target ⊖ source)) (fl.cos (target ⊖ source))

  -- `__init__`
  unfoldable pub new : GuardLimits R → RotationGuard R
  new limits = record {
    limits = limits;
    goal_uuid = "";
    latched_reason = none;
    spin_started_at = none;
    spin_rotation = whole 0;
    spin_progress_rotation = whole 0;
    last_spin_progress_at = none;
    terminal_started_at = none;
    terminal_rotation = whole 0;
    terminal_allowed_rotation = whole 0;
    best_yaw_error = fl.infinity;
    last_progress_at = none;
    last_odom_yaw = none;
    rotating = false;
  }

  unfoldable pub begin_goal : String → RotationGuard R → RotationGuard R
  begin_goal goal_uuid g = if goal_uuid =? g.goal_uuid then g else record g {
    goal_uuid = goal_uuid;
    latched_reason = none;
    spin_started_at = none;
    spin_rotation = whole 0;
    spin_progress_rotation = whole 0;
    last_spin_progress_at = none;
    terminal_started_at = none;
    terminal_rotation = whole 0;
    terminal_allowed_rotation = whole 0;
    best_yaw_error = fl.infinity;
    last_progress_at = none;
    last_odom_yaw = none;
    rotating = false;
  }

  unfoldable pub clear_if_idle : RotationGuard R → RotationGuard R
  clear_if_idle g = record g { goal_uuid = ""; latched_reason = none; rotating = false }

  -- The body of `if self.last_odom_yaw is not None and self.rotating`.
  unfoldable pub turn_by : R → RotationGuard R → RotationGuard R
  turn_by delta g = record g {
    spin_rotation = g.spin_rotation ⊕ delta;
    terminal_rotation = elim g.terminal_started_at [
      | none ↦ g.terminal_rotation
      | some t ↦ g.terminal_rotation ⊕ delta
    ];
  }

  unfoldable pub observe_odom : R → RotationGuard R → RotationGuard R
  observe_odom yaw g =
      let turned : RotationGuard R = elim g.last_odom_yaw [
        | none ↦ g
        | some last ↦ if g.rotating then turn_by (fl.abs (shortest_angle last yaw)) g else g
      ] in
      record turned { last_odom_yaw = some yaw }

  -- `_trip`
  unfoldable pub trip : Reason → RotationGuard R → RotationGuard R × Option Reason
  trip reason g = (record g { latched_reason = some reason }, some reason)

  -- A command that turns the robot while it stands.
  unfoldable pub is_rotating : GuardLimits R → R → R → Bool
  is_rotating limits linear_speed angular_speed =
      (fl.abs linear_speed ≤? limits.rotating_linear_mps)
      && (limits.rotating_angular_rps ≤? fl.abs angular_speed)

  unfoldable pub reset_spin : RotationGuard R → RotationGuard R
  reset_spin g = record g {
    spin_started_at = none;
    spin_rotation = whole 0;
    spin_progress_rotation = whole 0;
    last_spin_progress_at = none;
  }

  -- `if self.spin_started_at is None: …`
  unfoldable pub start_spin : R → RotationGuard R → RotationGuard R
  start_spin now g = elim g.spin_started_at [
    | some t ↦ g
    | none ↦ record g {
      spin_started_at = some now;
      spin_rotation = whole 0;
      spin_progress_rotation = whole 0;
      last_spin_progress_at = some now;
    }
  ]

  -- The progress mark of the spin.
  unfoldable pub mark_spin : R → RotationGuard R → RotationGuard R
  mark_spin now g =
      if g.limits.global_min_progress_rad ≤? (g.spin_rotation ⊖ g.spin_progress_rotation)
      then record g { spin_progress_rotation = g.spin_rotation; last_spin_progress_at = some now }
      else g

  -- `since is not None and now - since > limit`
  abbrev pub expired : R → Option R → R → Bool
  expired now none limit = false
  expired now (some since) limit = limit <? (now ⊖ since)

  -- `if self.terminal_started_at is None: …`
  unfoldable pub start_terminal : R → R → RotationGuard R → RotationGuard R
  start_terminal now yaw_error g = elim g.terminal_started_at [
    | some t ↦ g
    | none ↦ record g {
      terminal_started_at = some now;
      terminal_rotation = whole 0;
      terminal_allowed_rotation =
          max (fl.decimal 50 2) (yaw_error ⊕ g.limits.terminal_rotation_margin_rad);
      best_yaw_error = yaw_error;
      last_progress_at = some now;
    }
  ]

  -- The tests of the terminal window, once it has been entered.
  unfoldable pub check_terminal : R → R → RotationGuard R → RotationGuard R × Option Reason
  check_terminal now yaw_error g =
      if expired now g.terminal_started_at g.limits.terminal_timeout_s
      then trip terminal_timeout g
      else if g.terminal_allowed_rotation <? g.terminal_rotation
      then trip terminal_limit g
      else if (yaw_error ⊕ g.limits.terminal_min_progress_rad) <? g.best_yaw_error
      then (record g { best_yaw_error = yaw_error; last_progress_at = some now }, none)
      else if expired now g.last_progress_at g.limits.terminal_no_progress_s
      then trip no_progress g
      else (g, none)

  unfoldable pub within_terminal : GuardLimits R → Pose R → Pose R → Bool
  within_terminal limits robot goal =
      not (limits.terminal_xy_m <? fl.hypot (robot.0 ⊖ goal.0) (robot.1 ⊖ goal.1))

  -- `evaluate` from the pose test on.
  unfoldable pub evaluate_terminal :
      R → Option (Pose R) → Option (Pose R) → RotationGuard R → RotationGuard R × Option Reason
  evaluate_terminal now none goal_pose g = (g, none)
  evaluate_terminal now (some robot) none g = (g, none)
  evaluate_terminal now (some robot) (some goal) g =
      let yaw_error = fl.abs (shortest_angle robot.2 goal.2) in
      if within_terminal g.limits robot goal
      then check_terminal now yaw_error (start_terminal now yaw_error g)
      else (g, none)

  -- `evaluate` from the spin bookkeeping on, for a command that rotates.
  unfoldable pub evaluate_spin :
      R → Option (Pose R) → Option (Pose R) → RotationGuard R → RotationGuard R × Option Reason
  evaluate_spin now robot_pose goal_pose g =
      let spun = mark_spin now (start_spin now g) in
      if expired now spun.last_spin_progress_at spun.limits.global_spin_timeout_s
      then trip spin_timeout spun
      else if spun.limits.global_spin_limit_rad <? spun.spin_rotation
      then trip spin_limit spun
      else evaluate_terminal now robot_pose goal_pose spun

  unfoldable pub evaluate :
      R
      → R
      → R
      → Option (Pose R)
      → Option (Pose R)
      → RotationGuard R
      → RotationGuard R × Option Reason
  evaluate now linear_speed angular_speed robot_pose goal_pose g = elim g.latched_reason [
    | some reason ↦ (g, some reason)
    | none ↦
        if g.goal_uuid =? ""
        then (record g { rotating = false }, none)
        else let rotating = is_rotating g.limits linear_speed angular_speed in
          let g' = record g { rotating = rotating } in
          if rotating then evaluate_spin now robot_pose goal_pose g' else (reset_spin g', none)
  ]

-- `any(value < 0 or value > 255 for value in values)`, negated
unfoldable pub all_octets : List ℤ → Bool
all_octets [] = true
all_octets (pos n ∷ ns) = ltb n 256 && all_octets ns
all_octets (negsuc n ∷ ns) = false

-- The plain integers of a ROS UUID; `none` where it raises `ValueError`.
unfoldable pub normalize_uuid_octets : List ℤ → Option (List ℤ)
unfolding all_octets
normalize_uuid_octets values =
    if length values == 16 && all_octets values then some values else none
