-- ===== src/ScanFilter.antt =====
-- nav2_wrapper/scan_filter_core.py: readings with too few neighbors at about the same distance are set to
-- infinity. `window` is `window_bins`; a negative one would leave no offset, and so is no value here.
pub mod Removal
pub mod Publish
mod Tests
use service_navigation_rbnx.Base.{
  ℕ, zero, suc, ◌+◌, ◌-◌, ◌*◌, ltb, leb, ◌==◌, Bool, true, false, not, ◌&&◌, ◌||◌, Option, none,
  some, is_some, List, [], ◌∷◌, length, get_elem?, if◌then◌else◌,
}
use service_navigation_rbnx.Float.{Float, ◌⊖◌, ◌≤?◌}

pub record Filter (R : Type 0) : Type 0 where
  pub range_min : R
  pub range_max : R
  pub window : ℕ
  pub max_range_delta_m : R
  pub min_neighbors : ℕ

module _ {R : Type 0} ⦃fl : Float R⦄ where
  -- An entry of `valid`.
  unfoldable pub is_valid : Filter R → R → Bool
  is_valid p value = fl.is_finite value && (p.range_min ≤? value) && (value ≤? p.range_max)

  -- Whether the reading at a position supports `value`; `none` stands for a position outside the scan.
  unfoldable pub supports : Filter R → R → Option R → Bool
  unfolding is_valid
  supports p value none = false
  supports p value (some other) =
      is_valid p other && (fl.abs (other ⊖ value) ≤? p.max_range_delta_m)

  -- The body of the loop on the offset `k - window`.
  unfoldable pub neighbor_at : Filter R → List R → ℕ → R → ℕ → Bool
  unfolding supports
  neighbor_at p ranges index value k =
      if k == p.window || ltb (index + k) p.window
      then false
      else supports p value (get_elem? ranges (index + k - p.window))

  -- The neighbors at the first `n` offsets.
  unfoldable pub count_neighbors : Filter R → List R → ℕ → R → ℕ → ℕ
  count_neighbors p ranges index value zero = 0
  count_neighbors p ranges index value (suc k) =
      let before = count_neighbors p ranges index value k in
      if neighbor_at p ranges index value k then suc before else before

  -- Whether the reading `value` at `index` is removed.
  unfoldable pub is_removed : Filter R → List R → ℕ → R → Bool
  unfolding is_valid
  is_removed p ranges index value =
      is_valid p value
      && ltb (count_neighbors p ranges index value (suc (2 * p.window))) p.min_neighbors

  -- The outer loop, from position `index` on, where the readings left are `rest`.
  unfoldable pub filter_from : Filter R → List R → ℕ → List R → List R × List ℕ
  filter_from p ranges index [] = ([], [])
  filter_from p ranges index (value ∷ rest) =
      let (output, removed) = filter_from p ranges (suc index) rest in
      if is_removed p ranges index value
      then (fl.infinity ∷ output, index ∷ removed)
      else (value ∷ output, removed)

  -- The filtered ranges and the positions that were removed.
  unfoldable pub filter_ranges : Filter R → List R → List R × List ℕ
  filter_ranges p ranges = filter_from p ranges 0 ranges
