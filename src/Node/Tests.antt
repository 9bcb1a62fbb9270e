-- ===== src/Node/Tests.antt =====
-- Runs of the velocity guard node over fixed-point numbers, and instances of its theorems.
use service_navigation_rbnx.Base.{
  ◌≡◌, ◌⊎◌, refl, none, String, some, is_some, true, false, List, [], ◌∷◌, length, leb, All, map,
}
use service_navigation_rbnx.Int.{ℤ, pos}
use service_navigation_rbnx.Fixed.{fixed, fixed_laws}
use service_navigation_rbnx.Speed.Settings.{SpeedSettings}
use service_navigation_rbnx.Speed.Range.{InRange}
use service_navigation_rbnx.Bridge.Limit.{linear_speed}
use service_navigation_rbnx.Velocity.{
  CmdVelSummary, new_summary, bounded_linear_velocity, observe, count_command, reset,
}
use service_navigation_rbnx.Guard.Core.{spin_limit, GuardLimits, new, evaluate}
use service_navigation_rbnx.Node.Handlers.{
  Node, Twist, zero_twist, limited_twist, on_cmd, trip, publish_latched_zero, on_speed_limit,
}
use service_navigation_rbnx.Node.Passing.{on_cmd_publishes}
use service_navigation_rbnx.Node.Cancel.{
  Event, commands, timer, handle, cancels, published, one_cancel, latched_publishes_zero,
}
use service_navigation_rbnx.Node.Agreement.{on_speed_limit_agrees}
use service_navigation_rbnx.Diagnostics.{show_int, show_nat}
use service_navigation_rbnx.Fallible.{ok}
use service_navigation_rbnx.Text.{strip, codes, starts_with_slash}
use service_navigation_rbnx.Value.{Value, Fields, end, field, get, only_keys, to_float, text_of}
use service_navigation_rbnx.Topic.{
  advance, full_match, validate_text, resolve_velocity_output_topic,
}
use service_navigation_rbnx.Speed.Settings.{speed_settings, read_settings, validate}
use service_navigation_rbnx.Node.Start.{
  updated, guard_variables, setting, start_node, new_node, limits_of,
}
use service_navigation_rbnx.Node.Handover.{Readable, guard_accepts}

abbrev limits : GuardLimits ℤ
limits = record {
  terminal_xy_m = pos 450_000;
  rotating_linear_mps = pos 50_000;
  rotating_angular_rps = pos 50_000;
  terminal_timeout_s = pos 15_000_000;
  terminal_rotation_margin_rad = pos 500_000;
  terminal_no_progress_s = pos 3_000_000;
  terminal_min_progress_rad = pos 40_000;
  global_spin_timeout_s = pos 25_000_000;
  global_spin_limit_rad = pos 6_783_185;
  global_min_progress_rad = pos 40_000;
}

abbrev summary : CmdVelSummary ℤ
summary = new_summary (pos 1_000_000) (pos 20_000)

abbrev raw : List ℤ
raw = map pos (1 ∷ 2 ∷ [])

-- A node that has latched for its goal.
abbrev latched : Node ℤ
latched = record {
  guard = record (new limits) { goal_uuid = "0102"; latched_reason = some spin_limit };
  active_uuid = "0102";
  active_uuid_raw = some raw;
  robot_pose = none;
  goal_pose = none;
  last_cmd = (pos 0, pos 0);
  cmd_summary = summary;
  cancel_sent = false;
  max_linear_speed_mps = pos 300_000;
  speed_percentage = pos 75_000_000;
  effective_linear_speed_mps = pos 225_000;
}

abbrev driving : Twist ℤ
driving = record { linear = (pos 500_000, pos 0, pos 0); angular = (pos 0, pos 0, pos 0) }

-- A command while the cancel service is not ready, one when it is, and a tick of the timer.
abbrev events : List (Event ℤ)
events = commands (pos 1_000_000) false driving ∷ commands (pos 2_000_000) true driving ∷ timer ∷ []

node_code : Unit {0}
unfolding handle cancels published on_cmd trip evaluate limited_twist bounded_linear_velocity
    observe count_command reset publish_latched_zero zero_twist new new_summary linear_speed
node_code = tt

on_cmd_publishes_example :
    let r = on_cmd (pos 1_000_000) true driving latched in
    ((r.node.guard.latched_reason ≡ none)
      × (r.published ≡ (limited_twist latched.effective_linear_speed_mps driving).0))
    ⊎ ((is_some r.node.guard.latched_reason ≡ true) × (r.published ≡ zero_twist))
on_cmd_publishes_example = on_cmd_publishes (pos 1_000_000) true driving latched

one_cancel_example : leb (length (cancels events latched)) 1 ≡ true
one_cancel_example = one_cancel events latched (tt, (tt, (tt, tt)))

-- The first command found the service unready: no cancel is ever requested.
never_canceled : cancels events latched ≡ []
unfolding node_code
never_canceled = refl

three_zeros : published events latched ≡ zero_twist ∷ zero_twist ∷ zero_twist ∷ []
unfolding node_code
three_zeros = refl

latched_publishes_zero_example : All (λ t. t ≡ zero_twist) (published events latched)
unfolding new
latched_publishes_zero_example =
    latched_publishes_zero events latched spin_limit refl (tt, (tt, (tt, tt))) (tt, (tt, (tt, tt)))

abbrev settings : SpeedSettings ℤ
settings = record {
  max_linear_speed_mps = pos 300_000;
  default_percentage = pos 75_000_000;
  step_percentage = pos 20_000_000;
  min_percentage = pos 20_000_000;
  topic = "/speed_limit";
}

half-InRange : InRange settings (pos 50_000_000)
half-InRange = record { finite = refl; above_min = refl; le_hundred = refl }

on_speed_limit_agrees_example :
    on_speed_limit (pos 50_000_000) true latched
    ≡ record latched { speed_percentage = pos 50_000_000; effective_linear_speed_mps = pos 150_000 }
unfolding node_code
on_speed_limit_agrees_example =
    on_speed_limit_agrees fixed_laws settings (pos 50_000_000) latched half-InRange refl refl

-- A number is written as its millionths.
abbrev show : Value ℤ → String
show (Value.number x) = show_int x
show _ = ""

abbrev policy : Fields ℤ
policy =
    field "max_linear_speed_mps" (Value.number (pos 300_000))
      (field "default_percentage" (Value.number (pos 75_000_000)) end)

abbrev config : Fields ℤ
config = field "dynamic_speed" (Value.mapping policy) end

abbrev configured : SpeedSettings ℤ
configured = record {
  max_linear_speed_mps = pos 300_000;
  default_percentage = pos 75_000_000;
  step_percentage = pos 20_000_000;
  min_percentage = pos 20_000_000;
  topic = "/speed_limit";
}

start_code : Unit {0}
unfolding show_int show_nat get only_keys to_float text_of strip codes starts_with_slash full_match
    advance validate_text resolve_velocity_output_topic speed_settings read_settings validate
    setting
start_code = tt

limits-Readable :
    Readable show config
      (pos 450_000)
      (pos 15_000_000)
      (pos 3_000_000)
      (pos 25_000_000)
      (pos 6_783_185)
unfolding start_code
limits-Readable = record {
  at_xy = refl;
  at_timeout = refl;
  at_no_progress = refl;
  at_spin_timeout = refl;
  at_spin_limit = refl;
}

guard_accepts_example :
    start_node show (updated (guard_variables show config configured "/cmd_vel") (λ name. none))
    ≡ ok (
      "/cmd_vel",
      "/robonix/navigation/speed_limit_guard",
      new_node
          (limits_of
            (pos 450_000)
            (pos 15_000_000)
            (pos 3_000_000)
            (pos 25_000_000)
            (pos 6_783_185))
          (pos 300_000)
          (pos 75_000_000),
    )
unfolding start_code
guard_accepts_example =
    guard_accepts show fixed_laws (λ name. none) none config "/cmd_vel" configured (pos 450_000)
      (pos 15_000_000) (pos 3_000_000) (pos 25_000_000) (pos 6_783_185) refl refl refl refl
      limits-Readable
