-- ===== src/Node/Recorder/Tests.antt =====
-- Scans over fixed-point numbers on the recorder, and an instance of its theorem.
use service_navigation_rbnx.Base.{◌≡◌, refl, true, some, List, [], ◌∷◌, ◌++◌}
use service_navigation_rbnx.Int.{ℤ, pos}
use service_navigation_rbnx.Fixed.{fixed}
use service_navigation_rbnx.Bounded.{append_bounded, last_of}
use service_navigation_rbnx.Scan.{LaserScan}
use service_navigation_rbnx.Node.Recorder.{
  ScanRecord, angle_at, in_front, front_from, insert_sorted, sorted, item, median, is_sudden,
  by_index, close_to, earlier, close_neighbors, isolated_of, under_2m, rounded, record_scan,
  record_front, on_scan,
}
use service_navigation_rbnx.Node.Recorder.Memory.{
  minima, new_recorder, on_scans, on_scan-records_sudden,
}

-- A scan straight ahead.
abbrev ahead : List ℤ → LaserScan ℤ
ahead readings = record {
  angle_min = pos 0;
  angle_max = pos 0;
  angle_increment = pos 0;
  time_increment = pos 0;
  scan_time = pos 0;
  range_min = pos 100_000;
  range_max = pos 12_000_000;
  ranges = readings;
  intensities = [];
}

recorder_code : Unit {0}
unfolding append_bounded angle_at in_front front_from insert_sorted sorted item median is_sudden
    by_index close_to earlier close_neighbors isolated_of under_2m rounded record_scan record_front
    on_scan
recorder_code = tt

-- Two scans of a wall, and one with an isolated close return.
abbrev wall : List (ℤ × LaserScan ℤ)
wall =
    (pos 1_000_000, ahead (pos 3_000_000 ∷ pos 3_100_000 ∷ []))
    ∷ (pos 1_100_000, ahead (pos 3_050_000 ∷ pos 3_000_000 ∷ []))
    ∷ []

abbrev speckle : LaserScan ℤ
speckle = ahead (pos 3_000_000 ∷ pos 900_000 ∷ pos 3_100_000 ∷ [])

on_scan-records_sudden_example :
    let (r, written) = on_scan (pos 1_200_000) speckle (on_scans wall new_recorder) in
    ((line : ScanRecord ℤ) × (written ≡ some line)
      × (line.front_min ≡ pos 900_000)
      × (line.baseline_min ≡ some (pos 3_000_000))
      × (line.sudden ≡ true)
      × (line.front_under_2m ≡ under_2m (front_from speckle 0 speckle.ranges)))
    × (r.front_min_history ≡ last_of 20 (minima wall ++ (pos 900_000 ∷ [])))
unfolding recorder_code
on_scan-records_sudden_example =
    on_scan-records_sudden wall (pos 1_200_000) speckle (pos 900_000) (pos 3_000_000) refl refl refl
      refl

written :
    (on_scan (pos 1_200_000) speckle (on_scans wall new_recorder)).1
    ≡ some (record {
      front_min = pos 900_000;
      front_p05 = pos 900_000;
      baseline_min = some (pos 3_000_000);
      sudden = true;
      isolated = (pos 0, pos 900_000) ∷ [];
      front_under_2m = (pos 0, pos 900_000) ∷ [];
      range_min = pos 100_000;
      range_max = pos 12_000_000;
    })
unfolding recorder_code
written = refl
