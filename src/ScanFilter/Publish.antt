-- ===== src/ScanFilter/Publish.antt =====
-- The node of nav2_wrapper/scan_filter.py around the filter.
use service_navigation_rbnx.Base.{
  ℕ, ◌≡◌, refl, String, Option, none, some, List, [], ◌∷◌, length, get_elem?, if◌then◌else◌,
}
use service_navigation_rbnx.Int.{ℤ, pos, negsuc}
use service_navigation_rbnx.Float.{Float, ◌⊖◌, ◌≤?◌, min, whole}
use service_navigation_rbnx.Fallible.{Fallible, ok, ◌>>=◌}
use service_navigation_rbnx.Scan.{LaserScan}
use service_navigation_rbnx.Node.Start.{Environ, StartError, integer_from, number_from}
use service_navigation_rbnx.ScanFilter.{Filter, is_removed, filter_ranges}
use service_navigation_rbnx.ScanFilter.Removal.{filtered, filter_ranges_at}

pub record ScanSpeckleFilter (R : Type 0) : Type 0 where
  pub window_bins : ℤ
  pub max_delta : R
  pub min_neighbors : ℤ
  pub last_log : R

-- The line that is logged: the bins, how many were removed, and the closest of these.
pub record FilterLog (R : Type 0) : Type 0 where
  pub bins : ℕ
  pub removed_count : ℕ
  pub closest_removed : Option R

-- A negative window has the offsets of an empty one, and a negative count is always reached, as 0 is.
unfoldable pub not_below_zero : ℤ → ℕ
not_below_zero (pos n) = n
not_below_zero (negsuc n) = 0

module _ {R : Type 0} ⦃fl : Float R⦄ where
  -- `ScanSpeckleFilter.__init__`; `int` is Python's on a text, `none` where it raises.
  unfoldable pub start_filter_node :
      (String → Option ℤ) → Environ → Fallible StartError (ScanSpeckleFilter R)
  unfolding integer_from number_from
  start_filter_node int environ = do
    window ← integer_from int environ "ROBONIX_SCAN_FILTER_WINDOW_BINS" "2"
    delta ← number_from environ "ROBONIX_SCAN_FILTER_MAX_DELTA_M" "0.20"
    neighbors ← integer_from int environ "ROBONIX_SCAN_FILTER_MIN_NEIGHBORS" "2"
    ok (record {
      window_bins = window;
      max_delta = delta;
      min_neighbors = neighbors;
      last_log = whole 0;
    })

  unfoldable pub filter_of : ScanSpeckleFilter R → LaserScan R → Filter R
  unfolding not_below_zero
  filter_of node msg = record {
    range_min = msg.range_min;
    range_max = msg.range_max;
    window = not_below_zero node.window_bins;
    max_range_delta_m = node.max_delta;
    min_neighbors = not_below_zero node.min_neighbors;
  }

  -- `min((ranges[i] for i in removed), default=math.inf)`, where `removed` lists positions of the scan.
  unfoldable pub closest_from : R → List R → List ℕ → R
  closest_from best ranges [] = best
  closest_from best ranges (i ∷ is) =
      closest_from (elim (get_elem? ranges i) [ none ↦ best | some value ↦ min best value ]) ranges
        is

  unfoldable pub log_of : LaserScan R → List ℕ → FilterLog R
  unfolding closest_from
  log_of msg removed =
      let closest = closest_from fl.infinity msg.ranges removed in
      record {
        bins = length msg.ranges;
        removed_count = length removed;
        closest_removed = if fl.is_finite closest then some closest else none;
      }

  -- `_on_scan`: the published scan, and what is logged.
  unfoldable pub on_scan :
      R
      → LaserScan R
      → ScanSpeckleFilter R
      → ScanSpeckleFilter R × LaserScan R × Option (FilterLog R)
  unfolding filter_of log_of
  on_scan now msg node =
      let (kept, removed) = filter_ranges (filter_of node msg) msg.ranges in
      let due = whole 1 ≤? (now ⊖ node.last_log) in
      (
        if due then record node { last_log = now } else node,
        record msg { ranges = kept },
        if due then some (log_of msg removed) else none,
      )

  pub on_scan_publishes :
      (now : R) (msg : LaserScan R) (node : ScanSpeckleFilter R) (i : ℕ) (value : R)
      → get_elem? msg.ranges i ≡ some value
      → let output = (on_scan now msg node).1 in
        (length output.ranges ≡ length msg.ranges)
        × (get_elem? output.ranges i
            ≡ some (filtered (is_removed (filter_of node msg) msg.ranges i value) value))
        × (output ≡ record msg { ranges = output.ranges })
  unfolding on_scan
  on_scan_publishes now msg node i value h =
      let (same, kept, _) = filter_ranges_at (filter_of node msg) msg.ranges i value h in
      (same, kept, refl)
