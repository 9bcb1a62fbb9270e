-- ===== src/Lifecycle/Spawn.antt =====
-- `_spawn_nav2` of nav2_wrapper/atlas_bridge.py and what it calls: the parameter file, the launch file, and
-- the processes that are started with them. The arguments of the commands are in
-- Lifecycle.Commands; the environments are in Node.Start and Depth.Start.
use service_navigation_rbnx.Base.{String, Bool, Option, none, some, is_some, List, [], ◌∷◌, ◌++◌}
use service_navigation_rbnx.Float.{Float}
use service_navigation_rbnx.Text.{codes}
use service_navigation_rbnx.Replace.{Code}
use service_navigation_rbnx.Value.{Value, Fields, get}
use service_navigation_rbnx.Fallible.{ok, err}
use service_navigation_rbnx.Topic.{
  TopicResult, accepted, rejected, resolve_velocity_output_topic,
  resolve_controller_velocity_output_topic,
}
use service_navigation_rbnx.Params.{occurs, resolved, materialize, token_prefix}
use service_navigation_rbnx.Launch.{guarded_launch}
use service_navigation_rbnx.Bridge.Runs.{Outcome, raised, returned}
use service_navigation_rbnx.Lifecycle.Discovery.{section, provider_of}
use service_navigation_rbnx.Lifecycle.Soma.{Body, Answer, soma_footprint_info}
use service_navigation_rbnx.Lifecycle.Files.{File, resolve_params_file, resolve_bt_xml_file}
use service_navigation_rbnx.Lifecycle.Profile.{send_full_costmap, pin_collision_monitor}
use service_navigation_rbnx.Lifecycle.Scan.{ScanStarts}
use service_navigation_rbnx.Lifecycle.Process.{
  Action, ◌>>=◌, ◌>>◌, pure, raise, lift, Popen, when, choose, spawn, keep_depth_cloud,
  keep_monitor, keep_guard, keep_nav2,
}

-- What the calls out of the package give while the wrapper starts.
pub record Surroundings (R : Type 0) : Type 0 where
  -- `os.environ.get("ROBONIX_VELOCITY_OUTPUT_TOPIC")`
  pub topic_environment : Option String
  -- The file that a configured path leads to, the text of a path, and what a file holds.
  pub locate : String → Outcome String
  pub path_of : File → String
  pub read : File → Outcome Code
  -- `yaml.safe_load`
  pub load : Code → Outcome (Value R)
  -- Nav2's own launch file
  pub launch_text : Outcome Code
  -- What `_resolve_dep` returns for a contract and a provider, which is never empty, and what Soma answers.
  pub resolve : String → String → Option String
  pub footprint_cache : Option (Body R)
  pub soma : Answer R
  pub scan : ScanStarts
  pub depth_cloud : Popen
  pub guard : Popen
  pub monitor : Popen
  pub nav2 : Popen

abbrev pub topic_text : TopicResult → Outcome String
topic_text (accepted topic) = returned topic
topic_text (rejected e) = raised "invalid ROS topic"

module _ {R : Type 0} ⦃fl : Float R⦄ (str : Value R → String) (around : Surroundings R) where
  abbrev pub body : Outcome (Body R)
  body = soma_footprint_info around.footprint_cache around.soma

  -- `_start_depth_cloud`, without the node's environment
  abbrev pub camera : Fields R → String → Option String
  camera providers contract = around.resolve contract (provider_of str (get providers "depth"))

  unfoldable pub depth_cloud_start : Fields R → Option String → Option String → Action Code
  unfolding section codes
  depth_cloud_start cfg (some image) (some info) = do
    tuning ← lift (section (get cfg "depth_obstacles"))
    spawn around.depth_cloud keep_depth_cloud
    pure (codes "/robonix/navigation/depth_points")
  depth_cloud_start cfg image info =
      raise "the Nav2 parameters use __ROBONIX_DEPTH_CLOUD_TOPIC__ but no provider offers it"

  unfoldable pub start_depth_cloud : Fields R → Action Code
  unfolding depth_cloud_start section
  start_depth_cloud cfg = do
    providers ← lift (section (get cfg "provider_ids"))
    depth_cloud_start cfg (camera providers "robonix/primitive/camera/depth")
        (camera providers "robonix/primitive/camera/intrinsics")

  -- The tokens that the bindings and the behavior tree fill.
  unfoldable pub binding_tokens : List Code → Option File → List (Code × Code)
  unfolding codes
  binding_tokens bindings bt =
      (codes "__ROBONIX_MAP_TOPIC__", resolved bindings (codes "map"))
      ∷ (codes "__ROBONIX_ODOM_TOPIC__", resolved bindings (codes "odom"))
      ∷ (codes "__ROBONIX_SCAN_TOPIC__", resolved bindings (codes "scan"))
      ∷ (codes "__ROBONIX_SCAN_CLOUD_TOPIC__", resolved bindings (codes "scan_cloud"))
      ∷ (
        codes "__ROBONIX_BT_XML__",
        elim bt [ none ↦ [] | some file ↦ codes (around.path_of file) ],
      )
      ∷ []

  -- The entry of a token that is looked up only where the text has it.
  abbrev pub if_present : Code → Code → Action Code → Action (List (Code × Code))
  if_present token text value =
      choose (occurs token text) (value >>= λ v. pure ((token, v) ∷ [])) (pure [])

  abbrev pub polygon : Action Code
  polygon = lift body >>= λ b. pure (codes b.polygon)

  abbrev pub filled : List (Code × Code) → Code → Outcome Code
  filled replacements text = elim (materialize replacements text) [
    | ok t ↦ returned t
    | err e ↦ raised "cannot materialize the parameters"
  ]

  -- The part of `_materialize_params` on a text with tokens.
  unfoldable pub fill_tokens : Fields R → List Code → Code → Action (Code × List Code)
  unfolding codes
  fill_tokens cfg bindings text = do
    bt ← lift (resolve_bt_xml_file str around.locate cfg)
    footprint ← if_present (codes "__ROBONIX_FOOTPRINT__") text polygon
    depth ← if_present (codes "__ROBONIX_DEPTH_CLOUD_TOPIC__") text (start_depth_cloud cfg)
    result ← lift (filled (binding_tokens bindings bt ++ (footprint ++ depth)) text)
    pure (result, [])

  -- `_materialize_params`: the text of the parameter file, and the remaps for the launch.
  unfoldable pub materialize_params : Fields R → List Code → Action (Code × List Code)
  unfolding fill_tokens
  materialize_params cfg bindings = do
    source ← lift (resolve_params_file str around.locate cfg)
    text ← lift (around.read source)
    choose (occurs token_prefix text) (fill_tokens cfg bindings text) (pure (text, bindings))

  -- `_spawn_velocity_guard`; `ready` is whether the speed settings are set.
  unfoldable pub spawn_velocity_guard : Fields R → Bool → Action (Unit {0})
  spawn_velocity_guard cfg ready = do
    topic ← lift (topic_text (resolve_velocity_output_topic str cfg around.topic_environment))
    choose ready (spawn around.guard keep_guard)
        (raise "dynamic speed settings are not initialized")

  abbrev pub controller_topic : Fields R → Outcome (Option String)
  controller_topic cfg = elim (resolve_controller_velocity_output_topic str cfg) [
    | none ↦ returned none
    | some (accepted topic) ↦ returned (some topic)
    | some (rejected e) ↦ raised "invalid ROS topic"
  ]

  abbrev pub patched : Option String → Bool → Code → Outcome Code
  patched controller monitored text = elim (guarded_launch controller monitored text) [
    | ok t ↦ returned t
    | err e ↦ raised "unsupported nav2 launch layout"
  ]

  -- `_spawn_nav2`: the launch file that Nav2 is started with.
  unfoldable pub spawn_nav2 : Fields R → Bool → List Code → Action Code
  unfolding materialize_params spawn_velocity_guard
  spawn_nav2 cfg ready remaps = do
    controller ← lift (controller_topic cfg)
    (params, launch_remaps) ← materialize_params cfg remaps
    document ← lift (around.load params)
    costmap ← lift (send_full_costmap document)
    monitor ← lift (pin_collision_monitor costmap)
    spawn_velocity_guard cfg ready
    original ← lift around.launch_text
    launch ← lift (patched controller (is_some monitor) original)
    when (is_some monitor) (spawn around.monitor keep_monitor)
    spawn around.nav2 keep_nav2
    pure launch
