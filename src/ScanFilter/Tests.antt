-- ===== src/ScanFilter/Tests.antt =====
-- Scans over fixed-point numbers, as in test_scan_filter.py, and an instance of the filter's theorem.
use service_navigation_rbnx.Base.{
  String, Option, none, ◌=?◌, if◌then◌else◌, ◌≡◌, refl, some, List, [], ◌∷◌, length, get_elem?,
}
use service_navigation_rbnx.Int.{ℤ, pos}
use service_navigation_rbnx.Fixed.{fixed}
use service_navigation_rbnx.ScanFilter.{
  Filter, is_valid, supports, neighbor_at, count_neighbors, is_removed, filter_from, filter_ranges,
}
use service_navigation_rbnx.ScanFilter.Publish.{
  ScanSpeckleFilter, start_filter_node, on_scan, log_of, closest_from, filter_of, not_below_zero,
  on_scan_publishes,
}
use service_navigation_rbnx.Fallible.{ok}
use service_navigation_rbnx.Node.Start.{integer_from, number_from}
use service_navigation_rbnx.Scan.{LaserScan}

-- The defaults of `filter_ranges`, on readings between 0.5 and 12.
abbrev filter : Filter ℤ
filter = record {
  range_min = pos 500_000;
  range_max = pos 12_000_000;
  window = 2;
  max_range_delta_m = pos 200_000;
  min_neighbors = 2;
}

abbrev inf : ℤ
inf = fixed.infinity

filter_code : Unit {0}
unfolding is_valid supports neighbor_at count_neighbors is_removed filter_from filter_ranges
filter_code = tt

abbrev ghost : List ℤ
ghost = inf ∷ inf ∷ inf ∷ inf ∷ pos 1_000_000 ∷ inf ∷ inf ∷ inf ∷ inf ∷ []

ghost_removed :
    filter_ranges filter ghost ≡ (inf ∷ inf ∷ inf ∷ inf ∷ inf ∷ inf ∷ inf ∷ inf ∷ inf ∷ [], 4 ∷ [])
unfolding filter_code
ghost_removed = refl

abbrev obstacle : List ℤ
obstacle = inf ∷ inf ∷ pos 1_020_000 ∷ pos 1_000_000 ∷ pos 1_030_000 ∷ inf ∷ []

obstacle_kept : filter_ranges filter obstacle ≡ (obstacle, [])
unfolding filter_code
obstacle_kept = refl

-- The node with the defaults, and a scan of the ghost.
abbrev node : ScanSpeckleFilter ℤ
node = record {
  window_bins = pos 2;
  max_delta = pos 200_000;
  min_neighbors = pos 2;
  last_log = pos 0;
}

abbrev scan : LaserScan ℤ
scan = record {
  angle_min = pos 0;
  angle_max = pos 800_000;
  angle_increment = pos 100_000;
  time_increment = pos 0;
  scan_time = pos 0;
  range_min = pos 500_000;
  range_max = pos 12_000_000;
  ranges = ghost;
  intensities = [];
}

logged :
    (on_scan (pos 1_500_000) scan node).2
    ≡ some (record { bins = 9; removed_count = 1; closest_removed = some (pos 1_000_000) })
unfolding filter_code on_scan log_of closest_from filter_of not_below_zero
logged = refl

on_scan_publishes_example :
    (length (on_scan (pos 500_000) scan node).1.ranges ≡ 9)
    × (get_elem? (on_scan (pos 500_000) scan node).1.ranges 4 ≡ some inf)
unfolding filter_code on_scan filter_of not_below_zero
on_scan_publishes_example =
    let published = on_scan_publishes (pos 500_000) scan node 4 (pos 1_000_000) refl in
    (published.0, published.1)

-- An environment that sets the distance, and leaves the others at their defaults.
abbrev environ : String → Option String
environ name = if name =? "ROBONIX_SCAN_FILTER_MAX_DELTA_M" then some "200000" else none

-- `int`, but for `2` only.
abbrev read_int : String → Option ℤ
read_int s = if s =? "2" then some (pos 2) else none

filter_started : start_filter_node read_int environ ≡ ok node
unfolding start_filter_node integer_from number_from
filter_started = refl
