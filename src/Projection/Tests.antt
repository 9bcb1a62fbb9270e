-- ===== src/Projection/Tests.antt =====
-- A projection config over fixed-point numbers, and an instance of the theorem on its validation.
use service_navigation_rbnx.Base.{◌≡◌, ◌↔◌, refl, String, some, true, false}
use service_navigation_rbnx.Int.{ℤ, pos}
use service_navigation_rbnx.Fixed.{fixed}
use service_navigation_rbnx.Fallible.{ok}
use service_navigation_rbnx.Value.{Value, Fields, end, field, get, only_keys}
use service_navigation_rbnx.Projection.{Projection, fields, normalized, scan_projection_config}
use service_navigation_rbnx.Projection.Valid.{IsValid, scan_projection_iff}

abbrev show : Value ℤ → String
show v = ""

abbrev projected : Fields ℤ
projected =
    field "enabled" (Value.boolean true) (field "max_height_m" (Value.number (pos 1_500_000)) end)

abbrev config : Fields ℤ
config = field "scan_projection" (Value.mapping projected) end

abbrev expected : Projection ℤ
expected = record {
  enabled = true;
  target_frame = "";
  min_height_m = pos 0;
  max_height_m = pos 1_500_000;
  range_max_m = pos 30_000_000;
  self_filter_margin_m = pos 50_000;
  transform_tolerance_s = pos 150_000;
  deskewing = false;
  deskew_fixed_frame = "odom";
  deskew_wait_for_transform_s = pos 200_000;
}

scan_projection_iff_example : (scan_projection_config show config ≡ ok (some expected)) ↔ (
    (only_keys fields projected ≡ true)
    × (normalized show projected ≡ ok expected)
    × IsValid expected)
unfolding get
scan_projection_iff_example = scan_projection_iff show config projected expected refl
