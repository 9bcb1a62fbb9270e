-- ===== src/Node/Start.antt =====
-- The start of the node of nav2_wrapper/velocity_guard.py, and the environment that
-- nav2_wrapper/atlas_bridge.py starts it with. The trace directory and the topics that are not
-- configured are left out.
use service_navigation_rbnx.Base.{String, false, not, ◌&&◌, Option, none, some, [], ◌∷◌}
use service_navigation_rbnx.Int.{ℤ}
use service_navigation_rbnx.Float.{Float, ◌⊗◌, ◌⊘◌, ◌<?◌, ◌≤?◌, whole}
use service_navigation_rbnx.Dict.{Dict, lookup}
use service_navigation_rbnx.Fallible.{Fallible, ok, err, ◌>>=◌, ◌>>◌, check, or_raise}
use service_navigation_rbnx.Value.{Value, Fields, end, get, text_of}
use service_navigation_rbnx.Topic.{TopicResult, accepted, rejected, resolve_velocity_output_topic}
use service_navigation_rbnx.Speed.Settings.{SpeedSettings}
use service_navigation_rbnx.Guard.Core.{GuardLimits, new}
use service_navigation_rbnx.Velocity.{new_summary}
use service_navigation_rbnx.Node.Handlers.{Node}

pub data StartError : Type 0 where
  bad_topic missing not_number bad_maximum bad_percentage : StartError

-- `os.environ`
abbrev pub Environ : Type 0
Environ = String → Option String

-- `env.update({…})` on a copy of `os.environ`
unfoldable pub updated : Dict String → Environ → Environ
unfolding lookup
updated new_values inherited name = elim (lookup name new_values) [
  | some value ↦ some value
  | none ↦ inherited name
]

unfoldable pub topic_of : TopicResult → Fallible StartError String
topic_of (accepted topic) = ok topic
topic_of (rejected e) = err bad_topic

-- `int(os.getenv(name, default))`; `int` is Python's on a text, `none` where it raises.
unfoldable pub integer_from :
    (String → Option ℤ) → Environ → String → String → Fallible StartError ℤ
integer_from int environ name default = elim (environ name) [
  | none ↦ or_raise (int default) not_number
  | some value ↦ or_raise (int value) not_number
]

module _ {R : Type 0} ⦃fl : Float R⦄ where
  -- `float(os.environ[name])`
  unfoldable pub number : Environ → String → Fallible StartError R
  number environ name = do
    value ← or_raise (environ name) missing
    or_raise (fl.parse value) not_number

  -- `float(os.getenv(name, default))`
  unfoldable pub number_from : Environ → String → String → Fallible StartError R
  number_from environ name default = elim (environ name) [
    | none ↦ or_raise (fl.parse default) not_number
    | some value ↦ or_raise (fl.parse value) not_number
  ]

  -- The limits, with the defaults of `GuardLimits` for those that no variable sets.
  unfoldable pub limits_of : R → R → R → R → R → GuardLimits R
  limits_of xy timeout no_progress spin_timeout spin_limit = record {
    terminal_xy_m = xy;
    rotating_linear_mps = fl.decimal 5 2;
    rotating_angular_rps = fl.decimal 5 2;
    terminal_timeout_s = timeout;
    terminal_rotation_margin_rad = fl.decimal 50 2;
    terminal_no_progress_s = no_progress;
    terminal_min_progress_rad = fl.decimal 4 2;
    global_spin_timeout_s = spin_timeout;
    global_spin_limit_rad = spin_limit;
    global_min_progress_rad = fl.decimal 4 2;
  }

  unfoldable pub read_limits : Environ → Fallible StartError (GuardLimits R)
  unfolding number_from limits_of
  read_limits environ = do
    xy ← number_from environ "ROBONIX_GUARD_TERMINAL_XY_M" "0.45"
    timeout ← number_from environ "ROBONIX_GUARD_TERMINAL_TIMEOUT_S" "15.0"
    no_progress ← number_from environ "ROBONIX_GUARD_NO_PROGRESS_S" "3.0"
    spin_timeout ← number_from environ "ROBONIX_GUARD_GLOBAL_TIMEOUT_S" "25.0"
    spin_limit ← number_from environ "ROBONIX_GUARD_GLOBAL_ROTATION_RAD" "6.783185307"
    ok (limits_of xy timeout no_progress spin_timeout spin_limit)

  unfoldable pub new_node : GuardLimits R → R → R → Node R
  unfolding new new_summary
  new_node limits maximum percentage = record {
    guard = new limits;
    active_uuid = "";
    active_uuid_raw = none;
    robot_pose = none;
    goal_pose = none;
    last_cmd = (whole 0, whole 0);
    cmd_summary = new_summary (whole 1) (fl.decimal 2 2);
    cancel_sent = false;
    max_linear_speed_mps = maximum;
    speed_percentage = percentage;
    effective_linear_speed_mps = maximum ⊗ percentage ⊘ whole 100;
  }

module _ {R : Type 0} ⦃fl : Float R⦄ (str : Value R → String) where
  -- `VelocityGuardNode.__init__`: the output topic, the topic of the limits, and the node.
  unfoldable pub start_node : Environ → Fallible StartError (String × String × Node R)
  unfolding topic_of number read_limits new_node
  start_node environ = do
    topic ←
        topic_of (resolve_velocity_output_topic str end (environ "ROBONIX_VELOCITY_OUTPUT_TOPIC"))
    maximum ← number environ "ROBONIX_NAV_MAX_LINEAR_SPEED_MPS"
    percentage ← number environ "ROBONIX_NAV_DEFAULT_SPEED_PERCENTAGE"
    limit_topic ← or_raise (environ "ROBONIX_NAV_GUARD_SPEED_LIMIT_TOPIC") missing
    check (fl.is_finite maximum && not (maximum ≤? whole 0)) bad_maximum
    check ((whole 0 <? percentage) && (percentage ≤? whole 100)) bad_percentage
    limits ← read_limits environ
    ok (topic, limit_topic, new_node limits maximum percentage)

  -- `str(cfg.get(key, default))`
  unfoldable pub setting : Fields R → String → R → String
  unfolding text_of
  setting cfg key default = elim (get cfg key) [
    | none ↦ str (Value.number default)
    | some v ↦ text_of str v
  ]

  -- The variables that `_spawn_velocity_guard` sets, but for the trace directory.
  unfoldable pub guard_variables : Fields R → SpeedSettings R → String → Dict String
  unfolding setting
  guard_variables cfg s topic =
      ("ROBONIX_VELOCITY_OUTPUT_TOPIC", topic)
      ∷ ("ROBONIX_NAV_MAX_LINEAR_SPEED_MPS", str (Value.number s.max_linear_speed_mps))
      ∷ ("ROBONIX_NAV_DEFAULT_SPEED_PERCENTAGE", str (Value.number s.default_percentage))
      ∷ ("ROBONIX_NAV_GUARD_SPEED_LIMIT_TOPIC", "/robonix/navigation/speed_limit_guard")
      ∷ ("ROBONIX_GUARD_TERMINAL_XY_M", setting cfg "guard_terminal_xy_m" (fl.decimal 45 2))
      ∷ ("ROBONIX_GUARD_TERMINAL_TIMEOUT_S", setting cfg "guard_terminal_timeout_s" (whole 15))
      ∷ ("ROBONIX_GUARD_NO_PROGRESS_S", setting cfg "guard_no_progress_s" (whole 3))
      ∷ ("ROBONIX_GUARD_GLOBAL_TIMEOUT_S", setting cfg "guard_global_spin_timeout_s" (whole 25))
      ∷ (
        "ROBONIX_GUARD_GLOBAL_ROTATION_RAD",
        setting cfg "guard_global_spin_limit_rad" (fl.decimal 6_783_185_307 9),
      )
      ∷ []
