-- ===== src/Node/Handlers.antt =====
-- The callbacks of `VelocityGuardNode`, each one critical section under `_lock`. The trace file, the
-- log lines and the scan monitor are not part of the state.
use Prim.Native.String.{◌++◌}
use service_navigation_rbnx.Base.{
  ℕ, ◌/◌, ◌%◌, String, Bool, true, false, not, ◌||◌, Option, none, some, is_some, List, [], ◌∷◌,
  map, ◌=?◌, get_elem?, if◌then◌else◌,
}
use service_navigation_rbnx.Int.{ℤ, pos}
use service_navigation_rbnx.Float.{Float, ◌⊕◌, ◌⊖◌, ◌⊗◌, ◌⊘◌, ◌<?◌, min, max, whole}
use service_navigation_rbnx.Velocity.{bounded_linear_velocity, CmdVelSummary, SummaryLine, observe}
use service_navigation_rbnx.Guard.Core.{
  RotationGuard, Pose, begin_goal, clear_if_idle, observe_odom, evaluate, normalize_uuid_octets,
}
use service_navigation_rbnx.Bridge.State.{Nav2Status, accepted, executing, canceling}

pub record Node (R : Type 0) : Type 0 where
  pub guard : RotationGuard R
  pub active_uuid : String
  pub active_uuid_raw : Option (List ℤ)
  pub robot_pose : Option (Pose R)
  pub goal_pose : Option (Pose R)
  pub last_cmd : R × R
  pub cmd_summary : CmdVelSummary R
  pub cancel_sent : Bool
  pub max_linear_speed_mps : R
  pub speed_percentage : R
  pub effective_linear_speed_mps : R

pub record Quaternion (R : Type 0) : Type 0 where
  pub x : R
  pub y : R
  pub z : R
  pub w : R

pub record Twist (R : Type 0) : Type 0 where
  pub linear : R × R × R
  pub angular : R × R × R

-- The octets of a goal's UUID, a `uint8[16]` of ROS.
abbrev pub Uuid : Type 0
Uuid = List ℕ

hex_digits : List String
hex_digits =
    "0" ∷ "1" ∷ "2" ∷ "3" ∷ "4" ∷ "5" ∷ "6" ∷ "7" ∷ "8" ∷ "9" ∷ "a" ∷ "b" ∷ "c" ∷ "d" ∷ "e" ∷ "f"
    ∷ []

hex_digit : ℕ → String
unfolding hex_digits
hex_digit n = elim (get_elem? hex_digits n) [ none ↦ "" | some d ↦ d ]

-- `_uuid_text`: `bytes(raw).hex()`
unfoldable pub uuid_text : Uuid → String
unfolding hex_digit
uuid_text [] = ""
uuid_text (n ∷ ns) = hex_digit (n / 16) ++ hex_digit (n % 16) ++ uuid_text ns

-- The statuses of a goal that Nav2 has not finished.
abbrev pub is_live : Nav2Status → Bool
is_live accepted = true
is_live executing = true
is_live canceling = true
is_live _ = false

-- `active[-1]`, `none` where no goal is live
unfoldable pub last_live : List (Uuid × Nav2Status) → Option Uuid
last_live [] = none
last_live ((uuid, st) ∷ items) = elim (last_live items) [
  | some later ↦ some later
  | none ↦ if is_live st then some uuid else none
]

-- What `_on_cmd` does: the state it leaves, the command it publishes, the cancel request it sends
-- and the line it logs.
pub record Response (R : Type 0) : Type 0 where
  pub node : Node R
  pub published : Twist R
  pub canceled : Option (List ℤ)
  pub line : Option (SummaryLine R)

module _ {R : Type 0} ⦃fl : Float R⦄ where
  -- `_yaw`
  unfoldable pub yaw_of : Quaternion R → R
  yaw_of q =
      fl.atan2 (whole 2 ⊗ (q.w ⊗ q.z ⊕ q.x ⊗ q.y)) (whole 1 ⊖ whole 2 ⊗ (q.y ⊗ q.y ⊕ q.z ⊗ q.z))

  -- `Twist()`
  unfoldable pub zero_twist : Twist R
  zero_twist = record {
    linear = (whole 0, whole 0, whole 0);
    angular = (whole 0, whole 0, whole 0);
  }

  set_limit : R → R → Node R → Node R
  set_limit percentage linear_limit_mps n = record n {
    speed_percentage = percentage;
    effective_linear_speed_mps = linear_limit_mps;
  }

  -- `_on_speed_limit`; `is_percentage` is the message's `percentage`.
  unfoldable pub on_speed_limit : R → Bool → Node R → Node R
  unfolding set_limit
  on_speed_limit value is_percentage n =
      if not (fl.is_finite value) || (value <? whole 0)
      then n
      else if fl.eq value (whole 0)
      then set_limit (whole 100) n.max_linear_speed_mps n
      else if is_percentage
      then (let percentage = min (whole 100) (max (whole 0) value) in
          set_limit percentage (n.max_linear_speed_mps ⊗ percentage ⊘ whole 100) n)
      else let linear_limit_mps = min n.max_linear_speed_mps value in
        set_limit (linear_limit_mps ⊘ n.max_linear_speed_mps ⊗ whole 100) linear_limit_mps n

  -- `_begin_goal`, with whether it returns: `normalize_uuid_octets` may raise.
  unfoldable pub begin : String → Uuid → Node R → Node R × Bool
  begin goal_uuid raw n =
      if goal_uuid =? n.active_uuid then (n, true) else elim (normalize_uuid_octets (map pos raw)) [
        | none ↦ (record n { active_uuid = goal_uuid }, false)
        | some octets ↦ (
          record n {
            active_uuid = goal_uuid;
            active_uuid_raw = some octets;
            cancel_sent = false;
            robot_pose = none;
            goal_pose = none;
            guard = begin_goal goal_uuid n.guard;
          },
          true,
        )
      ]

  -- `_on_status`
  unfoldable pub on_status : List (Uuid × Nav2Status) → Node R → Node R
  unfolding begin
  on_status items n = elim (last_live items) [
    | some uuid ↦ (begin (uuid_text uuid) uuid n).0
    | none ↦ if n.active_uuid =? "" then n else record n { guard = clear_if_idle n.guard }
  ]

  -- `_on_feedback`; the pose is x, y and the orientation.
  unfoldable pub on_feedback : Uuid → R → R → Quaternion R → Node R → Node R
  unfolding begin
  on_feedback raw x y orientation n =
      let uuid = uuid_text raw in
      let (n', returns) =
        if (uuid =? "") || (uuid =? n.active_uuid) then (n, true) else begin uuid raw n in
      if returns then record n' { robot_pose = some (x, y, yaw_of orientation) } else n'

  -- `_on_plan`, on the last pose of the plan.
  unfoldable pub on_plan : Option (R × R × Quaternion R) → Node R → Node R
  on_plan none n = n
  on_plan (some (x, y, orientation)) n = record n { goal_pose = some (x, y, yaw_of orientation) }

  -- `_on_odom`
  unfoldable pub on_odom : Quaternion R → Node R → Node R
  on_odom orientation n = record n { guard = observe_odom (yaw_of orientation) n.guard }

  -- `_trip`, with the UUID of the cancel request that it sends; `ready` is `service_is_ready()`.
  unfoldable pub trip : Bool → Node R → Node R × Option (List ℤ)
  trip ready n = if n.cancel_sent then (n, none) else (
    record n { cancel_sent = true },
    elim n.active_uuid_raw [ none ↦ none | some raw ↦ if ready then some raw else none ],
  )

  -- The command that goes out unless the guard trips, with whether it was limited.
  unfoldable pub limited_twist : R → Twist R → Twist R × Bool
  limited_twist limit msg =
      let (x, y, limited) = bounded_linear_velocity msg.linear.0 msg.linear.1 limit in
      (if limited then record msg { linear = (x, y, msg.linear.2) } else msg, limited)

  -- `_on_cmd`, at the clock's time
  unfoldable pub on_cmd : R → Bool → Twist R → Node R → Response R
  unfolding limited_twist trip
  on_cmd now ready msg n =
      let (x, y, _) =
        bounded_linear_velocity msg.linear.0 msg.linear.1 n.effective_linear_speed_mps in
      let (output, limited) = limited_twist n.effective_linear_speed_mps msg in
      let cmd : R × R = (fl.hypot x y, output.angular.2) in
      let (guard, reason) = evaluate now cmd.0 cmd.1 n.robot_pose n.goal_pose n.guard in
      let (summary, line) = observe now cmd.0 cmd.1 limited (is_some reason) n.cmd_summary in
      let n' = record n { guard = guard; last_cmd = cmd; cmd_summary = summary } in
      elim reason [
        | none ↦ record { node = n'; published = output; canceled = none; line = line }
        | some r ↦
            let (tripped, request) = trip ready n' in
            record { node = tripped; published = zero_twist; canceled = request; line = line }
      ]

  -- `_publish_latched_zero`, with what it publishes.
  unfoldable pub publish_latched_zero : Node R → Option (Twist R)
  publish_latched_zero n = if is_some n.guard.latched_reason then some zero_twist else none
