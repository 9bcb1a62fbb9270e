-- ===== src/Node/Recorder/Memory.antt =====
-- The memory of the recorder in nav2_wrapper/velocity_guard.py, and what it makes of a scan.
use service_navigation_rbnx.Base.{
  ◌≡◌, refl, sym, ap, ◌∙◌, true, Option, none, some, List, [], ◌∷◌, ◌++◌, map, arith,
}
use mathlib.Core.List.{append_assoc, append-nil}
use service_navigation_rbnx.Float.{Float, ◌⊖◌, ◌≤?◌, min, whole}
use service_navigation_rbnx.Bounded.{append_bounded, last_of, append_bounded-last}
use service_navigation_rbnx.Scan.{LaserScan}
use service_navigation_rbnx.Node.Recorder.{
  Front, Recorder, ScanRecord, front_from, insert_sorted, sorted, median, is_sudden, rounded,
  under_2m, record_scan, record_front, on_scan,
}

-- The least item.
abbrev pub least : {R : Type 0} ⦃fl : Float R⦄ → List R → Option R
least [] = none
least (x ∷ xs) = some (elim (least xs) [ none ↦ x | some y ↦ min x y ])

module _ {R : Type 0} ⦃fl : Float R⦄ where
  head_of : List R → Option R
  head_of [] = none
  head_of (x ∷ xs) = some x

  head-insert :
      (x : R) (xs : List R)
      → head_of (insert_sorted x xs) ≡ some (elim (head_of xs) [ none ↦ x | some y ↦ min x y ])
  unfolding insert_sorted head_of
  head-insert x [] = refl
  head-insert x (y ∷ ys) = ground arith

  -- Sorting puts the least item first.
  head-sorted : (xs : List R) → head_of (sorted xs) ≡ least xs
  unfolding sorted
  head-sorted [] = unfold head_of in refl
  head-sorted (x ∷ xs) =
      head-insert x (sorted xs)
      ∙ ap (λ o. some (elim o [ none ↦ x | some y ↦ min x y ])) (head-sorted xs)

  -- The readings in front of the robot that are in the scan's range.
  abbrev pub front_values : LaserScan R → List R
  front_values msg = map (λ f. f.value) (front_from msg 0 msg.ranges)

  abbrev as_list : Option R → List R
  as_list none = []
  as_list (some x) = x ∷ []

  -- The least reading in front of each scan that has one.
  abbrev pub minima : List (R × LaserScan R) → List R
  minima [] = []
  minima ((now, msg) ∷ scans) = as_list (least (front_values msg)) ++ minima scans

  abbrev pub new_recorder : Recorder R
  new_recorder = record { front_min_history = []; last_scan_summary_at = whole 0 }

  abbrev pub on_scans : List (R × LaserScan R) → Recorder R → Recorder R
  on_scans [] r = r
  on_scans ((now, msg) ∷ scans) r = on_scans scans (on_scan now msg r).0

  front-remembered :
      (now : R) (msg : LaserScan R) (front : List (Front R)) (ordered seen : List R)
      (r : Recorder R)
      → r.front_min_history ≡ last_of 20 seen
      → (record_front now msg front ordered r).0.front_min_history
        ≡ last_of 20 (seen ++ as_list (head_of ordered))
  unfolding record_front record_scan head_of
  front-remembered now msg front [] seen r e = e ∙ ap (last_of 20) (sym (append-nil seen))
  front-remembered now msg front (x ∷ xs) seen r e =
      ap (λ h. append_bounded 20 h x) e ∙ append_bounded-last 20 seen x

  scan-remembered :
      (now : R) (msg : LaserScan R) (seen : List R) (r : Recorder R)
      → r.front_min_history ≡ last_of 20 seen
      → (on_scan now msg r).0.front_min_history
        ≡ last_of 20 (seen ++ as_list (least (front_values msg)))
  unfolding on_scan
  scan-remembered now msg seen r e =
      front-remembered now msg (front_from msg 0 msg.ranges) (sorted (front_values msg)) seen r e
      ∙ ap (λ o. last_of 20 (seen ++ as_list o)) (head-sorted (front_values msg))

  scans-remembered :
      (scans : List (R × LaserScan R)) (seen : List R) (r : Recorder R)
      → r.front_min_history ≡ last_of 20 seen
      → (on_scans scans r).front_min_history ≡ last_of 20 (seen ++ minima scans)
  scans-remembered [] seen r e = e ∙ ap (last_of 20) (sym (append-nil seen))
  scans-remembered ((now, msg) ∷ scans) seen r e =
      scans-remembered scans (seen ++ as_list (least (front_values msg))) (on_scan now msg r).0
        (scan-remembered now msg seen r e)
      ∙ ap (last_of 20) (append_assoc seen (as_list (least (front_values msg))) (minima scans))

  front-sudden :
      (now : R) (msg : LaserScan R) (front : List (Front R)) (ordered : List R) (r : Recorder R)
      (front_min baseline : R)
      → head_of ordered ≡ some front_min
      → median r.front_min_history ≡ some baseline
      → is_sudden (some baseline) front_min ≡ true
      → (line : ScanRecord R) × ((record_front now msg front ordered r).1 ≡ some line)
        × (line.front_min ≡ fl.round_to 4 front_min)
        × (line.baseline_min ≡ some (fl.round_to 4 baseline))
        × (line.sudden ≡ true)
        × (line.front_under_2m ≡ under_2m front)
  unfolding record_front record_scan head_of rounded
  front-sudden now msg front [] r front_min baseline e median_is sudden = cc
  front-sudden now msg front (x ∷ xs) r front_min baseline e median_is sudden =
      let same : x ≡ front_min = ground arith in
      rw (same, median_is, sudden) (_, refl, refl, refl, refl, refl)

  -- After any scans, the recorder's baseline is the median of the least front readings of the last 20 scans
  -- that had any in front. A scan whose least front reading is at most 2 m and at least 0.40 m below that
  -- median is written at once, as sudden, with its least reading, the baseline and every front reading up
  -- to 2 m, and its least reading is the newest of the 20 that are kept.
  pub on_scan-records_sudden :
      (scans : List (R × LaserScan R)) (now : R) (msg : LaserScan R) (front_min baseline : R)
      → least (front_values msg) ≡ some front_min
      → median (last_of 20 (minima scans)) ≡ some baseline
      → (fl.decimal 40 2 ≤? (baseline ⊖ front_min)) ≡ true
      → (front_min ≤? whole 2) ≡ true
      → let (r, written) = on_scan now msg (on_scans scans new_recorder) in
        ((line : ScanRecord R) × (written ≡ some line)
          × (line.front_min ≡ fl.round_to 4 front_min)
          × (line.baseline_min ≡ some (fl.round_to 4 baseline))
          × (line.sudden ≡ true)
          × (line.front_under_2m ≡ under_2m (front_from msg 0 msg.ranges)))
        × (r.front_min_history ≡ last_of 20 (minima scans ++ (front_min ∷ [])))
  unfolding on_scan is_sudden
  on_scan-records_sudden scans now msg front_min baseline nearest middle far near =
      let r : Recorder R = on_scans scans new_recorder in
      let remembered = scans-remembered scans [] new_recorder refl in
      let first = head-sorted (front_values msg) ∙ nearest in
      (
        front-sudden now msg (front_from msg 0 msg.ranges) (sorted (front_values msg)) r front_min
            baseline first (ap median remembered ∙ middle) (rw (far, near) refl),
        scan-remembered now msg (minima scans) r remembered
            ∙ ap (λ o. last_of 20 (minima scans ++ as_list o)) nearest,
      )
