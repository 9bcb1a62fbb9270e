-- ===== src/Speed/Tests.antt =====
-- Runs of the speed policy over fixed-point numbers, and instances of its theorems.
use service_navigation_rbnx.Base.{◌≡◌, refl, String, none, some}
use service_navigation_rbnx.Int.{ℤ, pos}
use service_navigation_rbnx.Fixed.{fixed, fixed_laws}
use service_navigation_rbnx.Text.{strip, starts_with_slash}
use service_navigation_rbnx.Value.{Value, Fields, end, field, get, only_keys, to_float}
use service_navigation_rbnx.Speed.Settings.{
  SpeedSettings, ok, err, unknown_field, speed_settings, read_settings, validate,
}
use service_navigation_rbnx.Speed.Decide.{
  SpeedDecision, read_direction, faster, slower, normal, decision, target_of, decide_adjustment,
}
use service_navigation_rbnx.Speed.Bounds.{IsValid, speed_settings_iff}
use service_navigation_rbnx.Speed.Range.{InRange, default-InRange}

abbrev show : Value ℤ → String
show v = ""

-- 0.3 m/s at most, 75% by default.
abbrev policy : Fields ℤ
policy =
    field "max_linear_speed_mps" (Value.number (pos 300_000))
      (field "default_percentage" (Value.number (pos 75_000_000)) end)

abbrev config : Fields ℤ
config = field "dynamic_speed" (Value.mapping policy) end

abbrev settings : SpeedSettings ℤ
settings = record {
  max_linear_speed_mps = pos 300_000;
  default_percentage = pos 75_000_000;
  step_percentage = pos 20_000_000;
  min_percentage = pos 20_000_000;
  topic = "/speed_limit";
}

config_read : speed_settings show config ≡ ok settings
unfolding speed_settings read_settings validate get only_keys to_float starts_with_slash strip
config_read = refl

settings-IsValid : IsValid settings
settings-IsValid = ((speed_settings_iff show config settings).0 config_read).1

speed_settings_iff_example : IsValid settings
speed_settings_iff_example = ((speed_settings_iff show config settings).0 config_read).1

unknown_key :
    speed_settings show
      (field "dynamic_speed" (Value.mapping (field "speed" Value.null policy)) end)
    ≡ err unknown_field
unfolding speed_settings read_settings get only_keys to_float
unknown_key = refl

commands :
    (read_direction " Faster\n" ≡ some faster)
    × (read_direction "NORMAL" ≡ some normal)
    × (read_direction "fast" ≡ none)
unfolding read_direction
commands = (refl, refl, refl)

abbrev at_default : SpeedDecision ℤ
at_default =
    decision (pos 75_000_000) (target_of faster (pos 75_000_000) settings) settings "faster"

faster_decided : decide_adjustment (pos 75_000_000) "faster" settings ≡ ok at_default
unfolding decide_adjustment read_direction
faster_decided = refl

faster_percentage : at_default.percentage ≡ pos 95_000_000
unfolding decision target_of
faster_percentage = refl

in_range : InRange settings (pos 75_000_000)
in_range = default-InRange fixed_laws settings settings-IsValid

abbrev slowed : SpeedDecision ℤ
slowed = decision (pos 75_000_000) (target_of slower (pos 75_000_000) settings) settings "slower"

slower_decided : decide_adjustment (pos 75_000_000) "slower" settings ≡ ok slowed
unfolding decide_adjustment read_direction
slower_decided = refl
