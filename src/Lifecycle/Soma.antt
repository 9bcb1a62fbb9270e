-- ===== src/Lifecycle/Soma.antt =====
-- `_soma_footprint_info` of nav2_wrapper/atlas_bridge.py: the body that Soma describes.
use Prim.Native.String.{◌++◌}
use service_navigation_rbnx.Base.{
  String, Bool, true, not, ◌&&◌, ltb, Option, none, some, List, [], ◌∷◌, length, if◌then◌else◌,
}
use service_navigation_rbnx.Float.{Float, max, whole}
use service_navigation_rbnx.Text.{strip, is_empty}
use service_navigation_rbnx.Bridge.Runs.{Outcome, raised, returned}

-- `GetFootprint_Response`, as far as it is read
pub record Footprint (R : Type 0) : Type 0 where
  pub base_frame : String
  pub points : List (R × R)

-- What Soma answers: no record of the contract, an exception on the way, or an endpoint and the reply of
-- the call to it.
pub data Answer (R : Type 0) : Type 0 where
  no_record : Answer R
  unreachable : String → Answer R
  replied : String → Outcome (Footprint R) → Answer R

-- The polygon, the circumscribed radius and the base frame.
pub record Body (R : Type 0) : Type 0 where
  pub polygon : String
  pub radius : R
  pub base_frame : String

module _ {R : Type 0} ⦃fl : Float R⦄ where
  -- `f"[{point.x:.6f}, {point.y:.6f}]"`
  unfoldable pub corner : R × R → String
  corner (x, y) = "[" ++ (fl.format_f 6 x ++ (", " ++ (fl.format_f 6 y ++ "]")))

  -- `", ".join(points)`
  unfoldable pub corners : List (R × R) → String
  unfolding corner
  corners [] = ""
  corners (p ∷ []) = corner p
  corners (p ∷ (q ∷ ps)) = corner p ++ (", " ++ corners (q ∷ ps))

  -- The loop's test on every point, and the radius that it ends with.
  unfoldable pub all_finite : List (R × R) → Bool
  all_finite [] = true
  all_finite ((x, y) ∷ ps) = fl.is_finite x && (fl.is_finite y && all_finite ps)

  unfoldable pub radius_from : R → List (R × R) → R
  radius_from r [] = r
  radius_from r ((x, y) ∷ ps) = radius_from (max r (fl.hypot x y)) ps

  unfoldable pub body_of : Footprint R → Outcome (Body R)
  unfolding corners all_finite radius_from
  body_of f =
      if is_empty f.base_frame
      then raised "Soma footprint response has no base_frame"
      else if ltb (length f.points) 3
      then raised "Soma footprint requires at least three polygon points"
      else if not (all_finite f.points)
      then raised "Soma footprint contains non-finite point coordinates"
      else returned (record {
        polygon = "[ " ++ (corners f.points ++ " ]");
        radius = radius_from (whole 0) f.points;
        base_frame = f.base_frame;
      })

  -- `_soma_footprint_info`; the first argument is `_footprint_cache`, which a result replaces.
  unfoldable pub soma_footprint_info : Option (Body R) → Answer R → Outcome (Body R)
  unfolding body_of
  soma_footprint_info (some b) answer = returned b
  soma_footprint_info none no_record =
      raised "required capability unavailable: robonix/system/soma/footprint"
  soma_footprint_info none (unreachable e) = raised e
  soma_footprint_info none (replied endpoint response) =
      if is_empty (strip endpoint)
      then raised "robonix/system/soma/footprint resolved to an empty endpoint"
      else elim response [ raised e ↦ raised e | returned f ↦ body_of f ]
