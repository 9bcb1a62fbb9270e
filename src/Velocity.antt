-- ===== src/Velocity.antt =====
-- nav2_wrapper/velocity_limit.py and nav2_wrapper/cmd_vel_summary.py.
pub mod Window
mod Tests
use service_navigation_rbnx.Base.{
  ℕ, suc, String, Bool, true, false, ◌||◌, Option, none, some, if◌then◌else◌,
}
use service_navigation_rbnx.Float.{Float, ◌⊖◌, ◌⊗◌, ◌⊘◌, ◌<?◌, ◌≤?◌, max, whole}

module _ {R : Type 0} ⦃fl : Float R⦄ where
  -- The bounded x and y, and whether they were limited.
  unfoldable pub bounded_linear_velocity : R → R → R → R × R × Bool
  bounded_linear_velocity x y max_linear_speed_mps =
      let speed = fl.hypot x y in
      if (speed ≤? max_linear_speed_mps) || fl.eq speed (whole 0)
      then (x, y, false)
      else let scale = max_linear_speed_mps ⊘ speed in (x ⊗ scale, y ⊗ scale, true)

pub record CmdVelSummary (R : Type 0) : Type 0 where
  pub period : R
  pub still_limit : R
  pub logged_at : Option R
  pub count : ℕ
  pub still : ℕ
  pub peak_linear : R
  pub peak_angular : R

-- What the logged line says of the window.
pub record SummaryLine (R : Type 0) : Type 0 where
  pub linear : R
  pub angular : R
  pub count : ℕ
  pub still : ℕ
  pub still_limit : R
  pub peak_linear : R
  pub peak_angular : R
  pub limited : Bool
  pub latched : Bool

module _ {R : Type 0} ⦃fl : Float R⦄ where
  -- `_reset`
  unfoldable pub reset : CmdVelSummary R → CmdVelSummary R
  reset s = record s { count = 0; still = 0; peak_linear = whole 0; peak_angular = whole 0 }

  -- `CmdVelSummary(period_s, still_linear_mps)`
  unfoldable pub new_summary : R → R → CmdVelSummary R
  new_summary period_s still_linear_mps = record {
    period = period_s;
    still_limit = still_linear_mps;
    logged_at = none;
    count = 0;
    still = 0;
    peak_linear = whole 0;
    peak_angular = whole 0;
  }

  -- The command is counted.
  unfoldable pub count_command : R → R → CmdVelSummary R → CmdVelSummary R
  count_command linear angular s = record s {
    count = suc s.count;
    still = if fl.abs linear <? s.still_limit then suc s.still else s.still;
    peak_linear = max s.peak_linear (fl.abs linear);
    peak_angular = max s.peak_angular (fl.abs angular);
  }

  -- `observe`; the line is returned as the values that it prints.
  unfoldable pub observe :
      R → R → R → Bool → Bool → CmdVelSummary R → CmdVelSummary R × Option (SummaryLine R)
  unfolding count_command reset
  observe now linear angular limited latched s =
      let c = count_command linear angular s in
      elim s.logged_at [
        | none ↦ (record c { logged_at = some now }, none)
        | some at ↦ if (now ⊖ at) <? s.period then (c, none) else (
          reset (record c { logged_at = some now }),
          some (record {
            linear = linear;
            angular = angular;
            count = c.count;
            still = c.still;
            still_limit = c.still_limit;
            peak_linear = c.peak_linear;
            peak_angular = c.peak_angular;
            limited = limited;
            latched = latched;
          }),
        )
      ]
