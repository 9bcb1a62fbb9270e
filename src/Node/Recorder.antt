-- ===== src/Node/Recorder.antt =====
-- `_on_scan` of nav2_wrapper/velocity_guard.py, which records sudden and isolated close returns. The times
-- and the frame of a record are left out.
pub mod Memory
mod Tests
use service_navigation_rbnx.Base.{
  ℕ, zero, suc, ◌+◌, ◌-◌, ◌/◌, ltb, leb, ◌==◌, Bool, true, false, ◌&&◌, ◌||◌, Option, none, some,
  List, [], ◌∷◌, ◌++◌, map, if◌then◌else◌, length, take, drop,
}
use service_navigation_rbnx.Float.{Float, ◌⊕◌, ◌⊖◌, ◌⊗◌, ◌<?◌, ◌≤?◌, whole}
use service_navigation_rbnx.Bounded.{append_bounded}
use service_navigation_rbnx.Scan.{LaserScan}

-- A reading in front of the robot.
pub record Front (R : Type 0) : Type 0 where
  pub index : ℕ
  pub angle : R
  pub value : R

-- `_front_min_history` and `_last_scan_summary_at`
pub record Recorder (R : Type 0) : Type 0 where
  pub front_min_history : List R
  pub last_scan_summary_at : R

-- A line of the scan log.
pub record ScanRecord (R : Type 0) : Type 0 where
  pub front_min : R
  pub front_p05 : R
  pub baseline_min : Option R
  pub sudden : Bool
  pub isolated : List (R × R)
  pub front_under_2m : List (R × R)
  pub range_min : R
  pub range_max : R

module _ {R : Type 0} ⦃fl : Float R⦄ where
  -- The angle of a reading, in (-π, π].
  unfoldable pub angle_at : LaserScan R → ℕ → R
  angle_at msg index =
      let angle = msg.angle_min ⊕ whole index ⊗ msg.angle_increment in
      fl.atan2 (fl.sin angle) (fl.cos angle)

  unfoldable pub in_front : LaserScan R → R → R → Bool
  in_front msg angle value =
      (fl.abs angle ≤? fl.radians (whole 60))
      && (fl.is_finite value && ((msg.range_min ≤? value) && (value ≤? msg.range_max)))

  -- `front`, from position `index` on.
  unfoldable pub front_from : LaserScan R → ℕ → List R → List (Front R)
  unfolding angle_at in_front
  front_from msg index [] = []
  front_from msg index (value ∷ rest) =
      let later = front_from msg (suc index) rest in
      let angle = angle_at msg index in
      if in_front msg angle value
      then record { index = index; angle = angle; value = value } ∷ later
      else later

  -- `sorted`
  unfoldable pub insert_sorted : R → List R → List R
  insert_sorted x [] = x ∷ []
  insert_sorted x (y ∷ ys) =
      let rest = insert_sorted x ys in if y <? x then y ∷ rest else x ∷ y ∷ ys

  unfoldable pub sorted : List R → List R
  unfolding insert_sorted
  sorted [] = []
  sorted (x ∷ xs) = insert_sorted x (sorted xs)

  -- `xs[i]` on a list that has the position.
  unfoldable pub item : R → List R → ℕ → R
  item default [] i = default
  item default (x ∷ xs) zero = x
  item default (x ∷ xs) (suc i) = item default xs i

  -- `sorted(history)[len(history) // 2]`, `none` on an empty history.
  unfoldable pub median : List R → Option R
  unfolding sorted item
  median [] = none
  median (h ∷ hs) = some (item h (sorted (h ∷ hs)) (length (h ∷ hs) / 2))

  unfoldable pub is_sudden : Option R → R → Bool
  is_sudden none front_min = false
  is_sudden (some baseline) front_min =
      (fl.decimal 40 2 ≤? (baseline ⊖ front_min)) && (front_min ≤? whole 2)

  -- `by_index.get(index)`
  unfoldable pub by_index : List (Front R) → ℕ → Option R
  by_index [] i = none
  by_index (f ∷ fs) i = if f.index == i then some f.value else by_index fs i

  -- 1 where a neighbor is close to `value`, and 0 elsewhere.
  unfoldable pub close_to : R → Option R → ℕ
  close_to value none = 0
  close_to value (some other) = if fl.abs (other ⊖ value) ≤? fl.decimal 20 2 then 1 else 0

  -- `by_index.get(index - k)`; no position is negative.
  unfoldable pub earlier : List (Front R) → ℕ → ℕ → Option R
  unfolding by_index
  earlier front index k = if ltb index k then none else by_index front (index - k)

  unfoldable pub close_neighbors : List (Front R) → Front R → ℕ
  unfolding by_index earlier close_to
  close_neighbors front f =
      close_to f.value (earlier front f.index 2)
      + close_to f.value (earlier front f.index 1)
      + close_to f.value (by_index front (f.index + 1))
      + close_to f.value (by_index front (f.index + 2))

  -- `isolated`, of the readings `fs` among `front`.
  unfoldable pub isolated_of : List (Front R) → List (Front R) → List (R × R)
  unfolding close_neighbors
  isolated_of front [] = []
  isolated_of front (f ∷ fs) =
      let rest = isolated_of front fs in
      if (f.value ≤? whole 2) && leb (close_neighbors front f) 1
      then (fl.round_to 5 f.angle, fl.round_to 4 f.value) ∷ rest
      else rest

  unfoldable pub under_2m : List (Front R) → List (R × R)
  under_2m [] = []
  under_2m (f ∷ fs) =
      let rest = under_2m fs in
      if f.value ≤? whole 2 then (fl.round_to 5 f.angle, fl.round_to 4 f.value) ∷ rest else rest

  unfoldable pub rounded : Option R → Option R
  rounded none = none
  rounded (some x) = some (fl.round_to 4 x)

  -- What follows once the readings are sorted, with the least of them and the others.
  unfoldable pub record_scan :
      R
      → LaserScan R
      → List (Front R)
      → R
      → List R
      → Recorder R
      → Recorder R × Option (ScanRecord R)
  unfolding item median is_sudden isolated_of under_2m rounded append_bounded
  record_scan now msg front front_min others r =
      let ordered = front_min ∷ others in
      let last = length ordered - 1 in
      -- `int(len(ordered) * 0.05)`
      let at = length ordered / 20 in
      let baseline = median r.front_min_history in
      let sudden = is_sudden baseline front_min in
      let due = sudden || (whole 1 ≤? (now ⊖ r.last_scan_summary_at)) in
      (
        record {
          front_min_history = append_bounded 20 r.front_min_history front_min;
          last_scan_summary_at = if due then now else r.last_scan_summary_at;
        },
        if due
            then some (record {
              front_min = fl.round_to 4 front_min;
              front_p05 = fl.round_to 4 (item front_min ordered (if ltb at last then at else last));
              baseline_min = rounded baseline;
              sudden = sudden;
              isolated = take 40 (isolated_of front front);
              front_under_2m = if sudden then under_2m front else [];
              range_min = msg.range_min;
              range_max = msg.range_max;
            })
            else none,
      )

  unfoldable pub record_front :
      R → LaserScan R → List (Front R) → List R → Recorder R → Recorder R × Option (ScanRecord R)
  unfolding record_scan
  record_front now msg front [] r = (r, none)
  record_front now msg front (front_min ∷ others) r = record_scan now msg front front_min others r

  -- `_on_scan`, with the record that it writes.
  unfoldable pub on_scan : R → LaserScan R → Recorder R → Recorder R × Option (ScanRecord R)
  unfolding record_front front_from sorted
  on_scan now msg r =
      let front = front_from msg 0 msg.ranges in
      record_front now msg front (sorted (map (λ f. f.value) front)) r
