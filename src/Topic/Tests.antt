-- ===== src/Topic/Tests.antt =====
-- Topics as in test_configuration.py, and instances of the grammar's theorems.
use service_navigation_rbnx.Base.{String, ◌≡◌, refl, some, [], ◌∷◌, map}
use service_navigation_rbnx.Int.{ℤ}
use service_navigation_rbnx.Text.{strip, codes, starts_with_slash}
use service_navigation_rbnx.Value.{Value, Fields, end, field, get}
use service_navigation_rbnx.Topic.{
  accepted, rejected, empty, not_absolute, not_valid, advance, full_match, validate_text,
  validate_absolute_ros_topic, resolve_velocity_output_topic,
  resolve_controller_velocity_output_topic,
}
use service_navigation_rbnx.Topic.Grammar.{IsTopic, validate_text_iff}

abbrev show : Value ℤ → String
show v = ""

topic_code : Unit {0}
unfolding advance strip codes starts_with_slash get full_match validate_text
    validate_absolute_ros_topic resolve_velocity_output_topic
    resolve_controller_velocity_output_topic
topic_code = tt

rejected_topics :
    map validate_text ("" ∷ "cmd_vel" ∷ "/" ∷ "/cmd_vel/" ∷ "/cmd//vel" ∷ "/9cmd_vel" ∷ [])
    ≡ rejected empty
      ∷ rejected not_absolute
      ∷ rejected not_valid
      ∷ rejected not_valid
      ∷ rejected not_valid
      ∷ rejected not_valid
      ∷ []
unfolding topic_code
rejected_topics = refl

abbrev config : Fields ℤ
config = field "velocity_output_topic" (Value.text " /cmd_vel ") end

abbrev controller : Fields ℤ
controller =
    field "controller_velocity_output_topic" (Value.text "/go2/robottrack/nav_cmd_vel_raw") end

controller_read :
    resolve_controller_velocity_output_topic show controller
    ≡ some (accepted "/go2/robottrack/nav_cmd_vel_raw")
unfolding topic_code
controller_read = refl

config_first :
    resolve_velocity_output_topic show config (some "/robonix/nomotion/cmd_vel")
    ≡ accepted "/cmd_vel"
unfolding topic_code
config_first = refl

validate_text_iff_example : IsTopic (codes "/cmd_vel")
unfolding topic_code
validate_text_iff_example = ((validate_text_iff " /cmd_vel " "/cmd_vel").0 refl).1
