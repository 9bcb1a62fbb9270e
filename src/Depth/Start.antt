-- ===== src/Depth/Start.antt =====
-- The start of the node of nav2_wrapper/depth_cloud.py, and the environment that `_start_depth_cloud` of
-- nav2_wrapper/atlas_bridge.py gives it.
use service_navigation_rbnx.Base.{
  ℕ, ltb, String, Option, none, some, [], ◌∷◌, if◌then◌else◌, ◌≡◌, refl,
}
use service_navigation_rbnx.Int.{ℤ, pos, negsuc}
use service_navigation_rbnx.Float.{Float, ◌⊘◌, max, whole}
use service_navigation_rbnx.Dict.{Dict, lookup}
use service_navigation_rbnx.Fallible.{Fallible, ok, ◌>>=◌, or_raise}
use service_navigation_rbnx.Value.{Value, Fields, get, text_of}
use service_navigation_rbnx.Node.Start.{
  Environ, StartError, missing, integer_from, number_from, updated,
}
use service_navigation_rbnx.Depth.{DepthCloud}

-- `max(1, n)`
unfoldable pub at_least_one : ℤ → ℕ
at_least_one (pos n) = if ltb 1 n then n else 1
at_least_one (negsuc n) = 1

-- The topics of a node: the images, their intrinsics and the cloud.
pub record DepthTopics : Type 0 where
  pub image : String
  pub info : String
  pub cloud : String

module _ {R : Type 0} ⦃fl : Float R⦄ where
  -- The node with these settings, before any message.
  unfoldable pub new_depth_cloud : ℤ → R → R → R → DepthCloud R
  unfolding at_least_one
  new_depth_cloud stride low high rate = record {
    stride = at_least_one stride;
    min_range = low;
    max_range = high;
    period = whole 1 ⊘ max (fl.decimal 1 1) rate;
    info = none;
    last = whole 0;
    grid = none;
  }

module _ {R : Type 0} ⦃fl : Float R⦄ (int : String → Option ℤ) where
  -- `DepthCloud.__init__`
  unfoldable pub start_depth : Environ → Fallible StartError (DepthTopics × DepthCloud R)
  unfolding integer_from number_from new_depth_cloud
  start_depth environ = do
    stride ← integer_from int environ "ROBONIX_DEPTH_STRIDE" "4"
    low ← number_from environ "ROBONIX_DEPTH_MIN_RANGE_M" "0.2"
    high ← number_from environ "ROBONIX_DEPTH_MAX_RANGE_M" "4.0"
    rate ← number_from environ "ROBONIX_DEPTH_RATE_HZ" "10"
    cloud ← or_raise (environ "ROBONIX_DEPTH_CLOUD_OUT") missing
    info ← or_raise (environ "ROBONIX_DEPTH_INFO_TOPIC") missing
    image ← or_raise (environ "ROBONIX_DEPTH_IMAGE_TOPIC") missing
    ok (record { image = image; info = info; cloud = cloud }, new_depth_cloud stride low high rate)

module _ {R : Type 0} (str : Value R → String) where
  -- `str(tuning.get(key, default))`, with the text of the default.
  unfoldable pub tuned : Fields R → String → String → String
  unfolding text_of
  tuned tuning key default = elim (get tuning key) [ none ↦ default | some v ↦ text_of str v ]

  -- The variables that `_start_depth_cloud` sets.
  unfoldable pub depth_variables : Fields R → String → String → Dict String
  unfolding tuned
  depth_variables tuning image info =
      ("ROBONIX_DEPTH_IMAGE_TOPIC", image)
      ∷ ("ROBONIX_DEPTH_INFO_TOPIC", info)
      ∷ ("ROBONIX_DEPTH_CLOUD_OUT", "/robonix/navigation/depth_points")
      ∷ ("ROBONIX_DEPTH_STRIDE", tuned tuning "stride" "4")
      ∷ ("ROBONIX_DEPTH_MIN_RANGE_M", tuned tuning "min_range_m" "0.2")
      ∷ ("ROBONIX_DEPTH_MAX_RANGE_M", tuned tuning "max_range_m" "4.0")
      ∷ ("ROBONIX_DEPTH_RATE_HZ", tuned tuning "rate_hz" "10")
      ∷ []

module _ {R : Type 0} ⦃fl : Float R⦄ (int : String → Option ℤ) (str : Value R → String) where
  -- Where the deployment's tuning reads back as numbers, the node that the bridge starts listens to the
  -- camera's image and intrinsics, publishes on the topic that the bridge returns for the Nav2 parameters,
  -- and samples by the tuning, whatever variables it inherits.
  depth_starts :
      (inherited : Environ) (tuning : Fields R) (image info : String) (stride : ℤ)
      (low high rate : R)
      → int (tuned str tuning "stride" "4") ≡ some stride
      → fl.parse (tuned str tuning "min_range_m" "0.2") ≡ some low
      → fl.parse (tuned str tuning "max_range_m" "4.0") ≡ some high
      → fl.parse (tuned str tuning "rate_hz" "10") ≡ some rate
      → start_depth int (updated (depth_variables str tuning image info) inherited)
        ≡ ok (
          record { image = image; info = info; cloud = "/robonix/navigation/depth_points" },
          new_depth_cloud stride low high rate,
        )
  unfolding start_depth updated depth_variables lookup integer_from number_from
  depth_starts inherited tuning image info stride low high rate s l h r = rw (s, l, h, r) refl
