-- ===== src/Lib.antt =====
-- The verification library of service-navigation-rbnx, the navigation service that stands between
-- a robot's agents and Nav2.
--
-- The program. nav2_wrapper/atlas_bridge.py takes navigate, status, cancel and speed requests over gRPC
-- and MCP, queues goals, sends them to Nav2 and follows their responses, feedback and results. It
-- publishes one speed limit on two channels: Nav2's and the final guard's. nav2_wrapper/speed_control.py
-- decides the limits. nav2_wrapper/velocity_guard.py is the process between Nav2's commands and the base:
-- it limits the planar speed (nav2_wrapper/velocity_limit.py), lets the state machine of
-- nav2_wrapper/rotation_guard_core.py judge each command, stops the robot and cancels the goal when it
-- trips, and records what its scans show. nav2_wrapper/diagnostics.py words the reports.
-- nav2_wrapper/scan_filter.py removes isolated readings from the scans (nav2_wrapper/scan_filter_core.py),
-- and nav2_wrapper/depth_cloud.py makes a sparse cloud of a camera's depth images.
--
-- The files.
--   Base, Bounded, Float, Int, Fixed, Text, Dict, Value, Fallible, Replace: shared names; the floating-point numbers as an interface
--     with the order laws of IEEE 754 doubles, and an instance of it in millionths for the tests; integers,
--     texts, dictionaries, bounded queues, parsed configs, results with an error, and Python's `str.replace`, `count` and
--     `index` on code points.
--   Diagnostics: `format_result_detail` and `summarize_blockage` of nav2_wrapper/diagnostics.py; Lines has
--     `classify_nav2_line`.
--   Speed: nav2_wrapper/speed_control.py. Settings has `speed_settings`, Decide has `decide_adjustment`,
--     `decide_explicit` and `_decision`; Bounds and Range are about them.
--   Guard: nav2_wrapper/rotation_guard_core.py. Core has `RotationGuard` and its methods under their
--     names, Trace the calls that the node makes in any order; Frame, Latch, Limits, Invariant and
--     Odometry are about them. A reason stands for its message, `none` for the empty one.
--   Bridge: the run and speed handlers of nav2_wrapper/atlas_bridge.py. State has the module's variables;
--     Runs has one function for each critical section under `_state_lock` (`navigate` for
--     `_navigate_impl`, `cancel` for `_cancel_impl`, `claim` to `mark_sent` for `_dispatch_goal`,
--     `goal_refused` and `goal_accepted` for `_goal_response_cb`, `result` for `_result_cb`); Limit has the
--     functions on the variables under `_speed_lock`; World has the threads as interleaved steps. Service has
--     the servicers and the tools over whole handlers, and its Steps relates these to World; Dispatch has
--     the queue's loop of `_run` with `_dispatch_goal` as a whole, Pump `_pump_output`. Life has the
--     abstract life of a run that the steps implement, Waiting and Progress are about its end, and the
--     other modules about the handlers.
--   Node: nav2_wrapper/velocity_guard.py. Handlers has the callbacks under their names; Passing, Cancel
--     and Agreement are about them and about sequences of them. Start has the node's start and the
--     environment that the bridge makes for it; Handover is about both. Recorder has its `_on_scan`.
--   Velocity: nav2_wrapper/velocity_limit.py and nav2_wrapper/cmd_vel_summary.py; Window is about the
--     latter.
--   Scan: the message of a laser scan. ScanFilter: nav2_wrapper/scan_filter_core.py; Removal is about it,
--     and Publish has the node of nav2_wrapper/scan_filter.py.
--   Depth: the node of nav2_wrapper/depth_cloud.py, with `on_info`, `on_depth` and `rays` for `_on_info`,
--     `_on_depth` and `_rays`; Start has its start and the environment that `_start_depth_cloud` makes for
--     it. Points, Shape, Cache, Published and Rate are about the node.
--   Topic: `validate_absolute_ros_topic` and the two functions that use it, of
--     nav2_wrapper/configuration.py; Grammar is about them.
--   Projection: `scan_projection_config` of nav2_wrapper/configuration.py; Valid is about it.
--   Launch: `_materialize_guarded_launch` of nav2_wrapper/atlas_bridge.py; Guarded is about it.
--   Params: `_binding_value` and the tokens of `_materialize_params` there.
--   Lifecycle: the set-up of nav2_wrapper/atlas_bridge.py. Discovery has `_resolve_dep` and
--     `_build_remap_args`, Soma `_soma_footprint_info`, Files the file resolution of
--     nav2_wrapper/configuration.py, Profile `_send_full_costmap` and `_pin_collision_monitor`, Scan
--     `_prepare_scan`, Spawn `_spawn_nav2` with `_materialize_params`, `_start_depth_cloud` and
--     `_spawn_velocity_guard`, Process `_kill_nav2` and `_kill_scan_projector`, Init `init` and `shutdown`,
--     Wait the loops that wait, Commands the arguments of the
--     commands. An action changes the handles of the processes and returns or raises.
--     Stopped, Clean and Reached are about what is left running, Started and Complete about a start-up
--     that succeeds, Clearance about the projected scan, Held, Remaps and Costmap about the channels, the bindings and the parameters.
--
-- Bounds and fuel. Python's integers and list positions are natural numbers or integers without bound.
-- The only fuel is that of `str(n)`: n + 1, which exceeds the number of digits. Loops recurse on the list
-- that they read, or on a count of offsets. The loops of Lifecycle.Wait take as fuel a number of rounds, of
-- which one more than the clock needs to reach the deadline is enough.
--
-- What is assumed. `Float` and `FloatLaws`: only laws of the order, of `round` and of adding or
-- subtracting a positive number are named, each true of finite doubles; no law of `hypot`, of products
-- or of quotients is assumed, so nothing is claimed of the length of a limited velocity. `str` of a
-- config value is a parameter, and so is Python's `int` on a text and NumPy's reading of bytes; one type
-- stands for floats of 32 and of 64 bits. Lifecycle.Spawn.Surroundings holds what the calls out of the package give:
-- the file system, YAML, Atlas, Soma and the processes, each free to fail. SIGKILL ends a whole process
-- group; what SIGTERM does is up to each process.
--
-- What is not modelled. The trace and log files, which affect no command; of the scan recorder, the times
-- and the frame of a record. In Bridge.World the step `refreshes` reads and publishes the limit at once, where
-- `_publish_speed_limit` reads it under `_speed_lock` and publishes later; publishing a limit and
-- committing it are one step, as both happen under `_speed_lock`. In Lifecycle a started
-- process is what `Popen` gives, whatever its arguments (Commands) and its environment (Node.Start,
-- Depth.Start) are. The ROS set-up of `_start_ros2_thread` is left out. `dict` on a list of pairs, which a config
-- could hold for "topic_remap", is taken to raise. The generated message types are records of the
-- model's own, without headers. terminal_controller is C++; scripts, docker, config and
-- nav2_wrapper/legacy_config are scripts and data.
mod Base
pub mod Bounded
pub mod Float
pub mod Int
pub mod Fixed
pub mod Text
pub mod Dict
pub mod Value
pub mod Diagnostics
pub mod Speed
pub mod Guard
pub mod Bridge
pub mod Velocity
pub mod Node
pub mod Scan
pub mod ScanFilter
pub mod Topic
mod Fallible
pub mod Projection
pub mod Lifecycle
pub mod Replace
pub mod Launch
pub mod Params
pub mod Depth
