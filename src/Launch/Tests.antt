-- ===== src/Launch/Tests.antt =====
-- A small launch file, and instances of the theorems on it and on `replace`.
use service_navigation_rbnx.Base.{◌≡◌, refl, none, false, ◌++◌}
use service_navigation_rbnx.Text.{codes}
use service_navigation_rbnx.Replace.{Code, is_prefix, scan, glue, count, replace, index}
use service_navigation_rbnx.Fallible.{ok}
use service_navigation_rbnx.Launch.{
  guarded_launch, patch_controller, patch_behaviors, patch_section, replace_all, old_controller,
  old_behavior, old_smoother, behavior_marker, navigator_marker, remap_to, smoothed_to,
  behavior_topic, smoother_topic,
}
use service_navigation_rbnx.Launch.Guarded.{IsGuarded, guarded_launch-IsGuarded}

launch_code : Unit {0}
unfolding codes is_prefix scan glue count replace index guarded_launch patch_controller
    patch_behaviors patch_section replace_all old_controller old_behavior old_smoother
    behavior_marker navigator_marker remap_to smoothed_to behavior_topic smoother_topic
launch_code = tt

section : Code
unfolding codes
section = codes "package='nav2_behaviors' remappings=remappings) package='nav2_bt_navigator' "

smoother : Code
unfolding codes
smoother = codes "[('cmd_vel', 'cmd_vel_nav'), ('cmd_vel_smoothed', 'cmd_vel')]) "

abbrev launch : Code
launch = section ++ (section ++ (smoother ++ smoother))

patched_section : Code
unfolding codes
patched_section =
    codes
      "package='nav2_behaviors' remappings=remappings + [('cmd_vel', 'cmd_vel_guard_input')]) package='nav2_bt_navigator' "

patched_smoother : Code
unfolding codes
patched_smoother =
    codes "[('cmd_vel', 'cmd_vel_nav'), ('cmd_vel_smoothed', 'cmd_vel_guard_input')]) "

abbrev patched : Code
patched = patched_section ++ (patched_section ++ (patched_smoother ++ patched_smoother))

small_file_accepted : guarded_launch none false launch ≡ ok patched
unfolding launch_code section smoother patched_section patched_smoother
small_file_accepted = refl

guarded_launch-IsGuarded_example : IsGuarded none false launch patched
guarded_launch-IsGuarded_example =
    guarded_launch-IsGuarded none false launch patched small_file_accepted
