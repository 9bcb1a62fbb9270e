-- ===== src/Lifecycle/Clearance/Tests.antt =====
-- A footprint and a projection over fixed-point numbers, and an instance of the theorem on them.
use Prim.Native.String.{◌++◌}
use service_navigation_rbnx.Base.{String, true, ◌≡◌, refl, [], ◌∷◌, All, length, get_elem?, some}
use service_navigation_rbnx.Int.{ℤ, pos}
use service_navigation_rbnx.Float.{◌≤?◌}
use service_navigation_rbnx.Fixed.{fixed, fixed_laws}
use service_navigation_rbnx.Text.{strip}
use service_navigation_rbnx.Value.{
  Value, Fields, boolean, end, field, contains, get, only_keys, to_float, truth, text_of,
}
use service_navigation_rbnx.Projection.{
  Projection, flag, number_or, text_or, normalized, checked, of_value, scan_projection_config,
}
use service_navigation_rbnx.Lifecycle.Soma.{
  Footprint, Body, corner, corners, all_finite, radius_from, body_of,
}
use service_navigation_rbnx.Lifecycle.Commands.{
  without_slashes, projector_cloud_topic, projector_range_min, projector_args, deskew_args,
  nav2_args, monitor_args,
}
use service_navigation_rbnx.Lifecycle.Clearance.{In, reach, projector_args-clear_body}

abbrev config : Fields ℤ
config =
    field "scan_projection"
      (Value.mapping (field "enabled" (boolean true) (field "deskewing" (boolean true) end))) end

abbrev footprint : Footprint ℤ
footprint = record {
  base_frame = "base_link";
  points = (pos 300_000, pos 200_000) ∷ (pos 100_000, pos 200_000) ∷ (pos 300_000, pos 0) ∷ [];
}

abbrev robot : Body ℤ
robot = record { polygon = "[ [, ], [, ], [, ] ]"; radius = pos 500_000; base_frame = "base_link" }

abbrev projection : Projection ℤ
projection = record {
  enabled = true;
  target_frame = "";
  min_height_m = pos 0;
  max_height_m = pos 2_000_000;
  range_max_m = pos 30_000_000;
  self_filter_margin_m = pos 50_000;
  transform_tolerance_s = pos 150_000;
  deskewing = true;
  deskew_fixed_frame = "odom";
  deskew_wait_for_transform_s = pos 200_000;
}

abbrev show : Value ℤ → String
show v = ""

setup_code : Unit {0}
unfolding corner corners all_finite radius_from body_of strip contains get only_keys to_float truth
    text_of flag number_or text_or normalized checked of_value scan_projection_config
    projector_range_min
setup_code = tt

projector_args-clear_body_example :
    In
      ("range_min:=" ++ fixed.format_f 3 (projector_range_min robot projection))
      (projector_args show "/cloud/" robot projection)
    × All (λ c. (reach c ≤? pos 550_000) ≡ true) footprint.points
unfolding setup_code
projector_args-clear_body_example =
    projector_args-clear_body fixed_laws show config footprint robot projection "/cloud/" refl refl
      refl (refl, (refl, (refl, tt)))

-- The projector reads what the deskewing writes.
deskewed :
    get_elem? (projector_args show "/cloud/" robot projection) 8 ≡ some "cloud_in:=/cloud/deskewed"
unfolding projector_args projector_cloud_topic without_slashes
deskewed = refl

lengths : length (deskew_args show "/cloud" projection) ≡ 15
lengths = unfold deskew_args in refl

launched :
    nav2_args "nav.py" "false" "p.yaml" ("map:=/map" ∷ [])
    ≡ "ros2" ∷ "launch" ∷ "nav.py" ∷ "use_sim_time:=false" ∷ "params_file:=p.yaml" ∷ "map:=/map"
      ∷ []
launched = unfold nav2_args in refl

monitored : get_elem? (monitor_args "p.yaml" "true") 4 ≡ some "use_sim_time:=true"
monitored = unfold monitor_args in refl
