-- ===== src/Projection.antt =====
-- `scan_projection_config` of nav2_wrapper/configuration.py. A config that switches the projection off is
-- `none`.
pub mod Valid
mod Tests
use service_navigation_rbnx.Base.{
  String, Bool, true, false, not, ◌&&◌, ◌||◌, Option, none, some, List, [], ◌∷◌, if◌then◌else◌,
}
use service_navigation_rbnx.Float.{Float, ◌<?◌, ◌≤?◌, whole}
use service_navigation_rbnx.Text.{strip, is_empty}
use service_navigation_rbnx.Fallible.{Fallible, ok, err, ◌>>=◌, ◌>>◌, check, or_raise}
use service_navigation_rbnx.Value.{Value, Fields, null, get, only_keys, to_float, truth, text_of}

pub record Projection (R : Type 0) : Type 0 where
  pub enabled : Bool
  pub target_frame : String
  pub min_height_m : R
  pub max_height_m : R
  pub range_max_m : R
  pub self_filter_margin_m : R
  pub transform_tolerance_s : R
  pub deskewing : Bool
  pub deskew_fixed_frame : String
  pub deskew_wait_for_transform_s : R

pub data ProjectionError : Type 0 where
  not_mapping unknown_field not_number heights negative : ProjectionError

abbrev pub fields : List String
fields =
    "enabled" ∷ "target_frame" ∷ "min_height_m" ∷ "max_height_m" ∷ "range_max_m"
    ∷ "self_filter_margin_m" ∷ "transform_tolerance_s" ∷ "deskewing" ∷ "deskew_fixed_frame"
    ∷ "deskew_wait_for_transform_s" ∷ []

module _ {R : Type 0} ⦃fl : Float R⦄ where
  -- `bool(raw.get(key, False))`
  unfoldable pub flag : Option (Value R) → Bool
  flag none = false
  flag (some v) = truth v

  -- `float(raw.get(key, default))`
  unfoldable pub number_or : R → Option (Value R) → Fallible ProjectionError R
  number_or default none = ok default
  number_or default (some v) = or_raise (to_float v) not_number

  -- The tests on the normalized settings.
  unfoldable pub checked : Projection R → Fallible ProjectionError (Projection R)
  checked p = do
    check (not (p.max_height_m ≤? p.min_height_m)) heights
    check (not (p.range_max_m <? whole 0)) negative
    check (not (p.self_filter_margin_m <? whole 0)) negative
    check (not (p.transform_tolerance_s <? whole 0)) negative
    check (not (p.deskew_wait_for_transform_s <? whole 0)) negative
    ok p

module _ {R : Type 0} ⦃fl : Float R⦄ (str : Value R → String) where
  -- `str(raw.get(key) or default).strip()`
  unfoldable pub text_or : String → Option (Value R) → String
  unfolding text_of
  text_or default none = strip default
  text_or default (some v) = if truth v then strip (text_of str v) else strip default

  unfoldable pub normalized : Fields R → Fallible ProjectionError (Projection R)
  unfolding flag number_or text_or
  normalized raw = do
    min_height ← number_or (whole 0) (get raw "min_height_m")
    max_height ← number_or (whole 2) (get raw "max_height_m")
    range_max ← number_or (whole 30) (get raw "range_max_m")
    margin ← number_or (fl.decimal 5 2) (get raw "self_filter_margin_m")
    tolerance ← number_or (fl.decimal 15 2) (get raw "transform_tolerance_s")
    wait ← number_or (fl.decimal 2 1) (get raw "deskew_wait_for_transform_s")
    ok (record {
      enabled = flag (get raw "enabled");
      target_frame = text_or "" (get raw "target_frame");
      min_height_m = min_height;
      max_height_m = max_height;
      range_max_m = range_max;
      self_filter_margin_m = margin;
      transform_tolerance_s = tolerance;
      deskewing = flag (get raw "deskewing");
      deskew_fixed_frame = text_or "odom" (get raw "deskew_fixed_frame");
      deskew_wait_for_transform_s = wait;
    })

  -- On the value of `cfg.get("scan_projection")`.
  unfoldable pub of_value : Option (Value R) → Fallible ProjectionError (Option (Projection R))
  unfolding checked normalized
  of_value none = ok none
  of_value (some null) = ok none
  of_value (some (Value.mapping raw)) = do
    check (only_keys fields raw) unknown_field
    p ← normalized raw
    q ← checked p
    ok (some q)
  of_value (some v) = err not_mapping

  unfoldable pub scan_projection_config :
      Fields R → Fallible ProjectionError (Option (Projection R))
  unfolding of_value
  scan_projection_config cfg = of_value (get cfg "scan_projection")
