-- ===== src/Lifecycle/Scan.antt =====
-- `_prepare_scan` of nav2_wrapper/atlas_bridge.py: a laser scan made from the point cloud of a 3D lidar. The
-- arguments of the started commands are in Lifecycle.Commands.
use service_navigation_rbnx.Base.{
  String, Bool, false, ◌&&◌, Option, none, some, List, [], ◌∷◌, ◌++◌, if◌then◌else◌,
}
use service_navigation_rbnx.Float.{Float}
use service_navigation_rbnx.Text.{codes}
use service_navigation_rbnx.Replace.{Code}
use service_navigation_rbnx.Value.{Value, Fields}
use service_navigation_rbnx.Fallible.{ok, err}
use service_navigation_rbnx.Projection.{
  Projection, ProjectionError, not_mapping, unknown_field, not_number, heights, negative,
  scan_projection_config,
}
use service_navigation_rbnx.Params.{no_code, binding_value}
use service_navigation_rbnx.Bridge.Runs.{Outcome, raised, returned}
use service_navigation_rbnx.Lifecycle.Soma.{Body}
use service_navigation_rbnx.Lifecycle.Process.{
  Host, kill_scan_projector, Action, ◌>>=◌, ◌>>◌, pure, raise, lift, Popen, when, choose,
  spawn_watched, keep_deskew, keep_projector, keep_filter,
}

-- What starting each of the three processes does.
pub record ScanStarts : Type 0 where
  pub deskew : Popen
  pub projector : Popen
  pub filter : Popen

-- The texts of the errors, without the names of the fields or the bad value.
unfoldable pub projection_text : ProjectionError → String
projection_text not_mapping = "scan_projection must be a mapping"
projection_text unknown_field = "unknown scan_projection field(s)"
projection_text not_number = "could not convert to float"
projection_text heights = "scan_projection min_height_m must be less than max_height_m"
projection_text negative = "scan_projection value must be non-negative"

unfoldable pub scan_binding : Code
unfolding codes
scan_binding = codes "scan:=/scanner/scan"

abbrev pub stop_scan : Action (Unit {0})
stop_scan h = (kill_scan_projector h, returned tt)

unfoldable pub start_deskew : Popen → Action (Unit {0})
start_deskew popen =
    spawn_watched popen keep_deskew (raise "scan_deskewing requires ros-humble-rtabmap-util")
      "lidar_deskewing exited during startup"

unfoldable pub start_projector : Popen → Action (Unit {0})
start_projector popen =
    spawn_watched popen keep_projector
      (stop_scan >> raise "scan_projection requires ros-humble-pointcloud-to-laserscan")
      "pointcloud_to_laserscan exited during startup"

unfoldable pub start_filter : Popen → Action (Unit {0})
start_filter popen =
    spawn_watched popen keep_filter (raise "no such file or directory")
      "scan speckle filter exited during startup"

-- `_scan_projector_proc is not None and _scan_projector_proc.poll() is None`
unfoldable pub is_projecting : Host → Bool
is_projecting h = elim h.scan_projector [ none ↦ false | some p ↦ p.parent ]

unfoldable pub start_scan : Bool → ScanStarts → Action (Unit {0})
start_scan deskewing s = do
  when deskewing (start_deskew s.deskew)
  start_projector s.projector
  start_filter s.filter

module _ {R : Type 0} where
  -- What follows once the projection is known to be wanted.
  unfoldable pub project : Outcome (Body R) → ScanStarts → Bool → List Code → Action (List Code)
  unfolding is_projecting
  project soma s deskewing bindings h =
      if no_code (binding_value bindings "scan_cloud")
      then (h, raised "scan_projection requires robonix/primitive/lidar/lidar3d")
      else if is_projecting h
      then (h, returned (bindings ++ (scan_binding ∷ [])))
      else (lift soma >>= λ body. start_scan deskewing s >> pure (bindings ++ (scan_binding ∷ [])))
          h

module _ {R : Type 0} ⦃fl : Float R⦄ (str : Value R → String) where
  -- `scan_projection_config`, its errors as exceptions.
  unfoldable pub projection_of : Fields R → Outcome (Option (Projection R))
  unfolding projection_text
  projection_of cfg = elim (scan_projection_config str cfg) [
    | err e ↦ raised (projection_text e)
    | ok p ↦ returned p
  ]

  -- `_uses_projected_scan` and `bool(projection["deskewing"])`; nothing is enabled in an absent config.
  unfoldable pub uses_projected_scan : Option (Projection R) → Bool
  uses_projected_scan none = false
  uses_projected_scan (some p) = p.enabled

  unfoldable pub is_deskewing : Option (Projection R) → Bool
  is_deskewing none = false
  is_deskewing (some p) = p.deskewing

  -- `_prepare_scan`; `soma` is what `_soma_footprint_info` gives.
  unfoldable pub prepare_scan :
      Fields R → Outcome (Body R) → ScanStarts → List Code → Action (List Code)
  unfolding projection_of uses_projected_scan is_deskewing
  prepare_scan cfg soma s bindings = do
    projection ← lift (projection_of cfg)
    choose (uses_projected_scan projection && no_code (binding_value bindings "scan"))
        (project soma s (is_deskewing projection) bindings) (pure bindings)
