-- ===== src/Launch.antt =====
-- `_materialize_guarded_launch` of nav2_wrapper/atlas_bridge.py: the changes to the text of Nav2's launch
-- file, on code points. Reading and writing the file are left to the caller.
pub mod Guarded
mod Tests
use service_navigation_rbnx.Base.{
  ℕ, zero, suc, ◌+◌, ◌==◌, String, Bool, true, false, Option, none, some, List, [], ◌∷◌, ◌++◌, take,
  drop, if◌then◌else◌,
}
use service_navigation_rbnx.Text.{codes}
use service_navigation_rbnx.Replace.{Code, count, replace, index}
use service_navigation_rbnx.Fallible.{Fallible, ok, err, ◌>>=◌, ◌>>◌, check, or_raise}

-- The layouts that are not supported, and `text.index` that finds nothing.
pub data LaunchError : Type 0 where
  controller_layout behavior_layout smoother_layout marker_missing : LaunchError

unfoldable pub old_controller : Code
unfolding codes
old_controller = codes "remappings=remappings + [('cmd_vel', 'cmd_vel_nav')])"

unfoldable pub old_behavior : Code
unfolding codes
old_behavior = codes "remappings=remappings)"

unfoldable pub old_smoother : Code
unfolding codes
old_smoother = codes "[('cmd_vel', 'cmd_vel_nav'), ('cmd_vel_smoothed', 'cmd_vel')])"

unfoldable pub behavior_marker : Code
unfolding codes
behavior_marker = codes "package='nav2_behaviors'"

unfoldable pub navigator_marker : Code
unfolding codes
navigator_marker = codes "package='nav2_bt_navigator'"

-- `remappings=remappings + [('cmd_vel', '<topic>')])`
unfoldable pub remap_to : String → Code
unfolding codes
remap_to topic = codes "remappings=remappings + [('cmd_vel', '" ++ (codes topic ++ codes "')])")

-- The smoother's output goes to `topic`.
unfoldable pub smoothed_to : String → Code
unfolding codes
smoothed_to topic =
    codes "[('cmd_vel', 'cmd_vel_nav'), ('cmd_vel_smoothed', '" ++ (codes topic ++ codes "')])")

-- `if text.count(old) != n: raise error`, and then `text.replace(old, new)`
unfoldable pub replace_all : Code → Code → ℕ → LaunchError → Code → Fallible LaunchError Code
replace_all old new n error text = do check (count old text == n) error; ok (replace old new text)

-- The controllers' velocities, where the deployment names a topic for them.
unfoldable pub patch_controller : Option String → Code → Fallible LaunchError Code
patch_controller none text = ok text
patch_controller (some topic) text =
    replace_all old_controller (remap_to topic) 2 controller_layout text

-- Where the behaviors' velocities go.
unfoldable pub behavior_topic : Option String → String
behavior_topic none = "cmd_vel_guard_input"
behavior_topic (some topic) = topic

-- One round of the loop on the behavior servers: the changed text, and where the next round searches
-- from. As in the code, that is the section's end in the text before the change.
unfoldable pub patch_section : Code → ℕ → Code → Fallible LaunchError (Code × ℕ)
patch_section remap search_from text = do
  offset ← or_raise (index behavior_marker (drop search_from text)) marker_missing
  let start = search_from + offset
  size ← or_raise (index navigator_marker (drop start text)) marker_missing
  section ← replace_all old_behavior remap 1 behavior_layout (take size (drop start text))
  ok (take start text ++ (section ++ drop size (drop start text)), start + size)

-- The loop: two rounds.
unfoldable pub patch_behaviors : Code → Code → Fallible LaunchError Code
patch_behaviors remap text = do
  (once, search_from) ← patch_section remap 0 text
  (twice, _) ← patch_section remap search_from once
  ok twice

-- The smoother's output, to the collision monitor or to the guard.
unfoldable pub smoother_topic : Bool → String
smoother_topic true = "cmd_vel_collision_input"
smoother_topic false = "cmd_vel_guard_input"

unfoldable pub guarded_launch : Option String → Bool → Code → Fallible LaunchError Code
guarded_launch controller collision_monitor text = do
  with_controller ← patch_controller controller text
  with_behaviors ← patch_behaviors (remap_to (behavior_topic controller)) with_controller
  replace_all old_smoother (smoothed_to (smoother_topic collision_monitor)) 2 smoother_layout
      with_behaviors
