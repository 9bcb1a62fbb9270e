-- ===== src/Diagnostics.antt =====
-- nav2_wrapper/diagnostics.py: the text that describes how a navigation run ended.
pub mod Lines
mod Tests
use Prim.Native.String.{◌++◌}
use service_navigation_rbnx.Base.{
  ℕ, zero, suc, ◌+◌, ◌-◌, ◌*◌, ◌/◌, ◌%◌, String, Bool, true, Option, none, some, List, [], ◌∷◌, ltb,
  ◌==◌, ◌||◌, if◌then◌else◌, length, take, drop,
}
use mathlib.Core.List.{◌++◌ as append}
use service_navigation_rbnx.Int.{ℤ, pos, negsuc, ltb_ℤ}
use service_navigation_rbnx.Float.{Float, ◌⊖◌, ◌⊗◌, ◌⊘◌, ◌<?◌, ◌≤?◌, whole}
use service_navigation_rbnx.Text.{is_empty}
use service_navigation_rbnx.Value.{contains}

-- A decimal digit.
digit : ℕ → String
digit n =
    if n == 0
    then "0"
    else if n == 1
    then "1"
    else if n == 2
    then "2"
    else if n == 3
    then "3"
    else if n == 4
    then "4"
    else if n == 5
    then "5"
    else if n == 6
    then "6"
    else if n == 7
    then "7"
    else if n == 8
    then "8"
    else "9"

-- The digits of `n`, in front of `rest`; a number has fewer digits than its successor counts.
digits_from : ℕ → ℕ → String → String
digits_from zero n rest = rest
digits_from (suc fuel) n rest =
    let more = digits_from fuel (n / 10) (digit (n % 10) ++ rest) in
    if ltb n 10 then digit n ++ rest else more

-- `str(n)`
unfoldable pub show_nat : ℕ → String
unfolding digits_from digit
show_nat n = digits_from (suc n) n ""

unfoldable pub show_int : ℤ → String
unfolding show_nat
show_int (pos n) = show_nat n
show_int (negsuc n) = "-" ++ show_nat (suc n)

-- What `_feedback_cb` keeps of a feedback message.
pub record Feedback (R : Type 0) : Type 0 where
  pub distance_remaining : R
  pub recoveries : ℤ
  pub x : R
  pub y : R

-- `separator.join(parts)`
unfoldable pub join : String → List String → String
join separator [] = ""
join separator (p ∷ []) = p
join separator (p ∷ q ∷ ps) = p ++ (separator ++ join separator (q ∷ ps))

-- The loop that keeps the first of equal, non-empty diagnostics; `unique` is what it has so far.
unfoldable pub unique_from : List String → List String → List String
unique_from unique [] = unique
unique_from unique (item ∷ items) =
    unique_from
      (if is_empty item || contains unique item then unique else append unique (item ∷ [])) items

-- `xs[-3:]`
unfoldable pub last_three : List String → List String
last_three xs = drop (length xs - 3) xs

-- What the loops of `summarize_blockage` carry: the nearest blocked cell (distance and bearing) and
-- the number within the radius.
pub record Blockage (R : Type 0) : Type 0 where
  pub nearest : Option (R × R)
  pub within : ℕ

module _ {R : Type 0} ⦃fl : Float R⦄ where
  unfoldable pub format_feedback : Feedback R → String
  format_feedback f =
      "distance_remaining="
      ++ fl.format_f 3 f.distance_remaining
      ++ "m recoveries="
      ++ show_int f.recoveries
      ++ " last_pose=("
      ++ fl.format_f 3 f.x
      ++ ","
      ++ fl.format_f 3 f.y
      ++ ")"

  -- `status` is the status name in lower case.
  unfoldable pub format_result_detail : String → Option (Feedback R) → List String → String
  unfolding unique_from last_three join format_feedback
  format_result_detail status feedback diagnostics =
      let progress : List String = elim feedback [ none ↦ [] | some f ↦ format_feedback f ∷ [] ] in
      let unique = unique_from [] diagnostics in
      let nav2 : List String = elim unique [
        | [] ↦ []
        | x ∷ xs ↦ ("nav2=" ++ join " | " (last_three (x ∷ xs))) ∷ []
      ] in
      join "; " (status ∷ append progress nav2)

  nearer : R → Option (R × R) → Bool
  nearer d none = true
  nearer d (some (best, bearing)) = d <? best

  -- The body of the inner loop for the cell at `ix`, `iy`, whose occupancy is `cell`.
  unfoldable pub visit : ℕ → ℕ → R → ℤ → R → ℕ → ℕ → ℤ → Blockage R → Blockage R
  unfolding nearer
  visit width height resolution threshold radius_m iy ix cell acc =
      let dx = whole ix ⊖ (whole (width - 1) ⊘ whole 2) in
      let dy = whole iy ⊖ (whole (height - 1) ⊘ whole 2) in
      let d = fl.hypot dx dy ⊗ resolution in
      if ltb_ℤ cell threshold then acc else record {
        nearest =
            if nearer d acc.nearest then some (d, fl.degrees (fl.atan2 dy dx)) else acc.nearest;
        within = if d ≤? radius_m then acc.within + 1 else acc.within;
      }

  -- The scan of all cells in row order: the cell at position `i` is in row `i / width`.
  unfoldable pub visit_all : ℕ → ℕ → R → ℤ → R → ℕ → List ℤ → Blockage R → Blockage R
  visit_all width height resolution threshold radius_m i [] acc = acc
  visit_all width height resolution threshold radius_m i (cell ∷ cells) acc =
      visit_all width height resolution threshold radius_m (i + 1) cells
        (visit width height resolution threshold radius_m (i / width) (i % width) cell acc)

  -- The report on what was found.
  report : ℤ → R → Blockage R → String
  report threshold radius_m found = elim found.nearest [
    | none ↦ "local costmap: no cells >= " ++ show_int threshold ++ " in the window"
    | some (d, bearing) ↦
        "local costmap: nearest blocked cell "
        ++ fl.format_f 2 d
        ++ "m at "
        ++ fl.format_f 0 bearing
        ++ "deg, "
        ++ show_nat found.within
        ++ " blocked cells within "
        ++ fl.format_f 1 radius_m
        ++ "m"
  ]

  unfoldable pub summarize_blockage : List ℤ → ℕ → ℕ → R → ℤ → R → String
  unfolding visit_all report
  summarize_blockage cells width height resolution threshold radius_m =
      let found =
        visit_all width height resolution threshold radius_m 0 (take (width * height) cells)
          (record { nearest = none; within = 0 }) in
      if width == 0 || height == 0 || (resolution ≤? whole 0) || ltb (length cells) (width * height)
      then ""
      else report threshold radius_m found
