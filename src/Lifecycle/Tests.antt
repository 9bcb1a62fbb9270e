-- ===== src/Lifecycle/Tests.antt =====
-- A start-up in small surroundings, and instances of the theorems on processes and set-up.
use service_navigation_rbnx.Base.{
  ℕ, ◌≡◌, refl, String, Bool, true, false, none, some, List, [], ltb, ◌==◌, arith,
}
use service_navigation_rbnx.Int.{ℤ, pos}
use service_navigation_rbnx.Fixed.{fixed}
use service_navigation_rbnx.Text.{codes, strip, starts_with_slash}
use service_navigation_rbnx.Dict.{lookup, insert}
use service_navigation_rbnx.Replace.{Code, is_prefix, scan, glue, count, replace, index}
use service_navigation_rbnx.Value.{
  Value, Fields, end, field, get, only_keys, to_float, truth, text_of,
}
use service_navigation_rbnx.Topic.{
  advance, full_match, validate_text, validate_absolute_ros_topic, resolve_velocity_output_topic,
  resolve_controller_velocity_output_topic,
}
use service_navigation_rbnx.Speed.Settings.{ok, speed_settings, read_settings, validate}
use service_navigation_rbnx.Projection.{scan_projection_config, of_value}
use service_navigation_rbnx.Params.{occurs, token_prefix}
use service_navigation_rbnx.Launch.{
  guarded_launch, patch_controller, patch_behaviors, patch_section, replace_all, old_controller,
  old_behavior, old_smoother, behavior_marker, navigator_marker, remap_to, smoothed_to,
  behavior_topic, smoother_topic,
}
use service_navigation_rbnx.Bridge.State.{SpeedState, session}
use service_navigation_rbnx.Bridge.Runs.{returned}
use service_navigation_rbnx.Bridge.Limit.{Publish, publish_speed_limit}
use service_navigation_rbnx.Lifecycle.Process.{Process, Host, Popen}
use service_navigation_rbnx.Lifecycle.Discovery.{
  Channel, Channels, section, provider_of, binding, endpoint, bind_all, build_remap_args,
  resolve_dep,
}
use service_navigation_rbnx.Lifecycle.Soma.{Answer}
use service_navigation_rbnx.Lifecycle.Files.{
  stripped, is_set, resolve_deployment_file, resolve_params_file,
}
use service_navigation_rbnx.Lifecycle.Profile.{
  put, child, is_true, switch_on, switched, send_full_costmap, pin_section, pin_collision_monitor,
}
use service_navigation_rbnx.Lifecycle.Scan.{
  projection_of, uses_projected_scan, is_deskewing, prepare_scan,
}
use service_navigation_rbnx.Lifecycle.Spawn.{
  Surroundings, materialize_params, spawn_velocity_guard, spawn_nav2,
}
use service_navigation_rbnx.Lifecycle.Init.{
  Reply, Wrapper, Waits, reset_speed, action_wait, apply_first, wait_ready, spawn_all, after_spawn,
  after_remaps, after_wait, after_tests, init, shutdown,
}
use service_navigation_rbnx.Lifecycle.Wait.{wait, Waited, wait-Waited}
use service_navigation_rbnx.Lifecycle.Held.{IsHeld, resolve_dep-IsHeld}
use service_navigation_rbnx.Lifecycle.Costmap.{IsOn, send_full_costmap-IsOn}
use service_navigation_rbnx.Lifecycle.Remaps.{ReadBack, build_remap_args-ReadBack}
use service_navigation_rbnx.Lifecycle.Stopped.{Quiet}
use service_navigation_rbnx.Lifecycle.Reached.{Tidy, Step, Reach, Reach-Tidy, shutdown-Quiet}
use service_navigation_rbnx.Lifecycle.Started.{InForce, init-InForce}
use service_navigation_rbnx.Lifecycle.Complete.{Complete, spawn_nav2-Complete}

abbrev show : Value ℤ → String
show v = ""

abbrev runs : Process
runs = record { parent = true; children = true; parent_heeds = true; children_heed = false }

abbrev starts : Popen
starts = Popen.started runs

-- Nav2's launch file, as far as it is changed.
launch : Code
unfolding codes
launch =
    codes
      "package='nav2_behaviors' remappings=remappings) package='nav2_bt_navigator' package='nav2_behaviors' remappings=remappings) package='nav2_bt_navigator' [('cmd_vel', 'cmd_vel_nav'), ('cmd_vel_smoothed', 'cmd_vel')]) [('cmd_vel', 'cmd_vel_nav'), ('cmd_vel_smoothed', 'cmd_vel')])"

abbrev around : Surroundings ℤ
around = record {
  topic_environment = none;
  locate = λ path. returned path;
  path_of = λ f. "";
  read = λ f. returned [];
  load = λ text. returned Value.null;
  launch_text = returned launch;
  resolve = λ contract provider. some "/topic";
  footprint_cache = none;
  soma = Answer.no_record;
  scan = record { deskew = starts; projector = starts; filter = starts };
  depth_cloud = starts;
  guard = starts;
  monitor = starts;
  nav2 = starts;
}

abbrev policy : Fields ℤ
policy =
    field "max_linear_speed_mps" (Value.number (pos 300_000))
      (field "default_percentage" (Value.number (pos 75_000_000)) end)

abbrev config : Fields ℤ
config =
    field "dynamic_speed" (Value.mapping policy) (field "params_file" (Value.text "nav2.yaml") end)

abbrev waits : Waits ℤ
waits = record { action_up = λ t. true; subscribed = λ t. true; publish = Publish.delivered }

abbrev nothing : Host
nothing = record {
  scan_projector = none;
  scan_deskew = none;
  scan_filter = none;
  depth_cloud = none;
  collision_monitor = none;
  velocity_guard = none;
  nav2 = none;
  lost = [];
}

nothing-Quiet : Quiet nothing
nothing-Quiet = (((((((tt, tt), tt), tt), tt), tt), tt), tt)

abbrev speed : SpeedState ℤ
speed = record {
  settings = none;
  percentage = pos 100_000_000;
  session_percentage = pos 100_000_000;
  scope = session;
  scope_run_id = "";
  subscriber_connected = false;
  nav2_limit = none;
  guard_limit = none;
}

abbrev fresh : Wrapper ℤ ℕ
fresh = record {
  host = nothing;
  bridge = record {
    ros_ready = false;
    action_ready = false;
    initialized = false;
    goal_states = [];
    goal_handles = [];
    nav_queue = [];
    diagnostics = [];
    costmap = none;
    last_run_id = "";
    speed = speed;
  };
}

Reach-twice :
    Reach show fresh (init show around config waits (init show around config waits fresh).0).0
Reach-twice =
    Reach.next (Reach.next Reach.here (Step.starts around config waits fresh))
      (Step.starts around config waits (init show around config waits fresh).0)

Reach-Tidy_example : Tidy (init show around config waits (init show around config waits fresh).0).0
Reach-Tidy_example = Reach-Tidy show nothing-Quiet Reach-twice

shutdown-Quiet_example :
    Quiet
      (shutdown (init show around config waits (init show around config waits fresh).0).0).0.host
shutdown-Quiet_example = shutdown-Quiet show nothing-Quiet Reach-twice

start_code : Unit {0}
unfolding codes strip starts_with_slash lookup insert is_prefix scan glue count replace index get
    only_keys to_float truth text_of advance full_match validate_text validate_absolute_ros_topic
    resolve_velocity_output_topic resolve_controller_velocity_output_topic speed_settings
    read_settings validate scan_projection_config of_value occurs token_prefix guarded_launch
    patch_controller patch_behaviors patch_section replace_all old_controller old_behavior
    old_smoother behavior_marker navigator_marker remap_to smoothed_to behavior_topic smoother_topic
    publish_speed_limit section provider_of binding endpoint bind_all build_remap_args stripped
    is_set resolve_deployment_file resolve_params_file put child is_true switch_on switched
    send_full_costmap pin_section pin_collision_monitor projection_of uses_projected_scan
    is_deskewing prepare_scan materialize_params spawn_velocity_guard spawn_nav2 reset_speed
    action_wait apply_first wait_ready spawn_all after_spawn after_remaps after_wait after_tests
    init launch
start_code = tt

init_done : (init show around config waits fresh).1 ≡ Reply.done
unfolding start_code
init_done = refl

init-InForce_example :
    (s : _) × (speed_settings show config ≡ ok s)
    × InForce s (init show around config waits fresh).0.bridge
init-InForce_example = init-InForce show around config waits fresh refl init_done

guarded : Code
unfolding codes
guarded =
    codes
      "package='nav2_behaviors' remappings=remappings + [('cmd_vel', 'cmd_vel_guard_input')]) package='nav2_bt_navigator' package='nav2_behaviors' remappings=remappings + [('cmd_vel', 'cmd_vel_guard_input')]) package='nav2_bt_navigator' [('cmd_vel', 'cmd_vel_nav'), ('cmd_vel_smoothed', 'cmd_vel_guard_input')]) [('cmd_vel', 'cmd_vel_nav'), ('cmd_vel_smoothed', 'cmd_vel_guard_input')])"

abbrev spawned : Host
spawned = record nothing { velocity_guard = some runs; nav2 = some runs }

spawned_guarded : spawn_nav2 show around config true [] nothing ≡ (spawned, returned guarded)
unfolding start_code guarded
spawned_guarded = refl

spawn_nav2-Complete_example : Complete around guarded spawned
spawn_nav2-Complete_example =
    spawn_nav2-Complete show around config true [] nothing spawned guarded spawned_guarded

-- The third round finds what is waited for, before a deadline that the fourth would pass.
wait-Waited_example :
    (b : Bool) × (wait 5 (λ i. ltb i 3) (λ i. i == 2) ≡ some b)
    × Waited (λ i. ltb i 3) (λ i. i == 2) 0 b
wait-Waited_example = wait-Waited (λ i. ltb i 3) (λ i. i == 2) 3 5 refl (omega arith)

abbrev channel : Channel
channel = record { provider_id = "ranger_chassis"; endpoint = "/odom" }

abbrev no_channels : Channels
no_channels = record { held = []; opened = [] }

abbrev connected : Channels
connected = (resolve_dep "odom" (some "ranger_chassis") (some channel) no_channels).0

resolve_dep-IsHeld_example : IsHeld connected
resolve_dep-IsHeld_example =
    resolve_dep-IsHeld "odom" (some "ranger_chassis") (some channel) no_channels (λ x. refl)

-- Parameters without a costmap section.
abbrev switched_parameters : Fields ℤ
switched_parameters =
    field "global_costmap"
      (Value.mapping (
        field "global_costmap"
          (Value.mapping (
            field "ros__parameters"
              (Value.mapping (field "always_send_full_costmap" (Value.boolean true) end)) end))
          end))
      end

parameters_switched :
    send_full_costmap (Value.mapping end) ≡ returned (Value.mapping switched_parameters)
unfolding start_code
parameters_switched = refl

send_full_costmap-IsOn_example :
    IsOn (Value.mapping switched_parameters)
    × (send_full_costmap (Value.mapping switched_parameters)
        ≡ returned (Value.mapping switched_parameters))
send_full_costmap-IsOn_example =
    send_full_costmap-IsOn (Value.mapping end) (Value.mapping switched_parameters)
      parameters_switched

-- The map by an override, and the others through Atlas.
abbrev overridden : Fields ℤ
overridden = field "topic_remap" (Value.mapping (field "map" (Value.text "/my_map") end)) end

build_remap_args-ReadBack_example :
    (bindings : List Code) × (build_remap_args show (λ c p. some "/topic") overridden
      ≡ returned (bindings, []))
    × ReadBack bindings "/my_map" "/topic" "/topic" "/topic"
unfolding start_code
build_remap_args-ReadBack_example =
    build_remap_args-ReadBack show (λ c p. some "/topic") overridden
      (field "map" (Value.text "/my_map") end) end refl refl
