-- ===== src/Lifecycle/Commands.antt =====
-- The arguments of the commands that nav2_wrapper/atlas_bridge.py starts.
use Prim.Native.Char.{code}
use Prim.Native.String.{◌++◌}
use service_navigation_rbnx.Base.{String, Bool, ◌==◌, ◌&&◌, List, [], ◌∷◌, if◌then◌else◌}
use service_navigation_rbnx.Float.{Float, ◌⊕◌}
use service_navigation_rbnx.Text.{is_empty}
use service_navigation_rbnx.Value.{Value}
use service_navigation_rbnx.Projection.{Projection}
use service_navigation_rbnx.Lifecycle.Soma.{Body}

-- `text.rstrip("/")`
unfoldable pub without_slashes : String → String
without_slashes String.[] = String.[]
without_slashes (String.◌∷◌ c s) =
    let rest = without_slashes s in
    if (code c == b'/') && is_empty rest then String.[] else String.◌∷◌ c rest

-- `projector_cloud_topic`, where the cloud is deskewed, or not
unfoldable pub projector_cloud_topic : Bool → String → String
unfolding without_slashes
projector_cloud_topic deskewing cloud =
    if deskewing then without_slashes cloud ++ "/deskewed" else cloud

module _ {R : Type 0} ⦃fl : Float R⦄ where
  -- `range_min`, before it is written with three decimals
  unfoldable pub projector_range_min : Body R → Projection R → R
  projector_range_min body p = body.radius ⊕ p.self_filter_margin_m

  unfoldable pub projector_frame : Body R → Projection R → String
  projector_frame body p = if is_empty p.target_frame then body.base_frame else p.target_frame

module _ {R : Type 0} ⦃fl : Float R⦄ (str : Value R → String) where
  -- A number in an f-string.
  abbrev in_text : R → String
  in_text x = str (Value.number x)

  -- `deskew_args`
  unfoldable pub deskew_args : String → Projection R → List String
  deskew_args cloud p =
      "ros2"
      ∷ "run"
      ∷ "rtabmap_util"
      ∷ "lidar_deskewing"
      ∷ "--ros-args"
      ∷ "-r"
      ∷ "__node:=robonix_nav_lidar_deskewing"
      ∷ "-r"
      ∷ ("input_cloud:=" ++ cloud)
      ∷ "-p"
      ∷ ("fixed_frame_id:=" ++ p.deskew_fixed_frame)
      ∷ "-p"
      ∷ ("wait_for_transform:=" ++ in_text p.deskew_wait_for_transform_s)
      ∷ "-p"
      ∷ "slerp:=true"
      ∷ []

  -- `args` of the projector
  unfoldable pub projector_args : String → Body R → Projection R → List String
  unfolding projector_range_min projector_frame projector_cloud_topic
  projector_args cloud body p =
      "ros2"
      ∷ "run"
      ∷ "pointcloud_to_laserscan"
      ∷ "pointcloud_to_laserscan_node"
      ∷ "--ros-args"
      ∷ "-r"
      ∷ "__node:=robonix_pointcloud_to_laserscan"
      ∷ "-r"
      ∷ ("cloud_in:=" ++ projector_cloud_topic p.deskewing cloud)
      ∷ "-r"
      ∷ "scan:=/scanner/scan_raw"
      ∷ "-p"
      ∷ ("target_frame:=" ++ projector_frame body p)
      ∷ "-p"
      ∷ ("transform_tolerance:=" ++ in_text p.transform_tolerance_s)
      ∷ "-p"
      ∷ ("min_height:=" ++ in_text p.min_height_m)
      ∷ "-p"
      ∷ ("max_height:=" ++ in_text p.max_height_m)
      ∷ "-p"
      ∷ ("range_min:=" ++ fl.format_f 3 (projector_range_min body p))
      ∷ "-p"
      ∷ ("range_max:=" ++ in_text p.range_max_m)
      ∷ "-p"
      ∷ "use_inf:=true"
      ∷ []

-- The arguments of Nav2's launch, which `launch_remaps` end; `sim` is "true" or "false".
unfoldable pub nav2_args : String → String → String → List String → List String
nav2_args launch_file sim params_file launch_remaps =
    "ros2"
    ∷ "launch"
    ∷ launch_file
    ∷ ("use_sim_time:=" ++ sim)
    ∷ ("params_file:=" ++ params_file)
    ∷ launch_remaps

-- The arguments of the collision monitor's launch.
unfoldable pub monitor_args : String → String → List String
monitor_args params_file sim =
    "ros2"
    ∷ "launch"
    ∷ "nav2_collision_monitor"
    ∷ "collision_monitor_node.launch.py"
    ∷ ("use_sim_time:=" ++ sim)
    ∷ ("params_file:=" ++ params_file)
    ∷ []
