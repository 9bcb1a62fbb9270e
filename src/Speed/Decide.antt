-- ===== src/Speed/Decide.antt =====
-- `SpeedDecision`, `decide_adjustment` and `decide_explicit`: one relative or explicit command.
use Prim.Native.String.{◌++◌}
use service_navigation_rbnx.Base.{String, Bool, Option, none, some, not, ◌&&◌, if◌then◌else◌}
use service_navigation_rbnx.Float.{Float, ◌⊕◌, ◌⊖◌, ◌⊗◌, ◌⊘◌, ◌≤?◌, min, max, whole}
use service_navigation_rbnx.Text.{strip, codes, lower, eq_codes}
use service_navigation_rbnx.Speed.Settings.{
  SpeedSettings, Result, err, ok, ◌>>◌, check, bad_direction, not_finite, bad_percentage,
}

pub record SpeedDecision (R : Type 0) : Type 0 where
  pub percentage : R
  pub linear_speed_mps : R
  pub changed : Bool
  pub detail : String

pub data Direction : Type 0 where
  faster slower normal : Direction

abbrev pub command : Direction → String
command faster = "faster"
command slower = "slower"
command normal = "normal"

-- `direction.strip().lower()` against the three commands.
unfoldable pub read_direction : String → Option Direction
unfolding strip codes lower eq_codes
read_direction direction =
    let given = lower (codes (strip direction)) in
    if eq_codes given (codes "faster")
    then some faster
    else if eq_codes given (codes "slower")
    then some slower
    else if eq_codes given (codes "normal")
    then some normal
    else none

module _ {R : Type 0} ⦃fl : Float R⦄ where
  -- `_decision`
  unfoldable pub decision : R → R → SpeedSettings R → String → SpeedDecision R
  decision current_percentage target_percentage settings action =
      let target = fl.round_6 target_percentage in
      let changed = not (fl.is_close target current_percentage) in
      let linear = fl.round_6 (settings.max_linear_speed_mps ⊗ target ⊘ whole 100) in
      let state : String = (if changed then "changed" else "already") in
      record {
        percentage = target;
        linear_speed_mps = linear;
        changed = changed;
        detail =
            "navigation speed "
            ++ state
            ++ " at "
            ++ fl.format_g target
            ++ "% ("
            ++ fl.format_g linear
            ++ " m/s linear limit) after "
            ++ action;
      }

  -- The target of each command.
  unfoldable pub target_of : Direction → R → SpeedSettings R → R
  target_of faster current s = min (whole 100) (current ⊕ s.step_percentage)
  target_of slower current s = max s.min_percentage (current ⊖ s.step_percentage)
  target_of normal current s = s.default_percentage

  unfoldable pub decide_adjustment : R → String → SpeedSettings R → Result (SpeedDecision R)
  decide_adjustment current direction s = elim (read_direction direction) [
    | some d ↦ ok (decision current (target_of d current s) s (command d))
    | none ↦ err bad_direction
  ]

  unfoldable pub decide_explicit : R → R → SpeedSettings R → Result (SpeedDecision R)
  decide_explicit current requested s = do
    check (fl.is_finite requested) not_finite
    check ((s.min_percentage ≤? requested) && (requested ≤? whole 100)) bad_percentage
    ok (decision current requested s "explicit set")
