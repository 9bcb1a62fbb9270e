-- ===== src/Velocity/Window.antt =====
-- The windows of `CmdVelSummary` over a sequence of commands.
use service_navigation_rbnx.Base.{
  ℕ, suc, ◌+◌, ◌≡◌, refl, Bool, Option, none, some, List, [], ◌∷◌, arith, length,
}
use service_navigation_rbnx.Float.{Float}
use service_navigation_rbnx.Velocity.{CmdVelSummary, SummaryLine, observe, count_command, reset}

pub record Command (R : Type 0) : Type 0 where
  pub now : R
  pub linear : R
  pub angular : R
  pub limited : Bool
  pub latched : Bool

abbrev pub line_count : {R : Type 0} → Option (SummaryLine R) → ℕ
line_count none = 0
line_count (some l) = l.count

module _ {R : Type 0} ⦃fl : Float R⦄ where
  -- The summary after a sequence of commands, and how many commands its lines have reported.
  unfoldable pub observe_commands : List (Command R) → CmdVelSummary R → CmdVelSummary R
  observe_commands [] s = s
  observe_commands (c ∷ cs) s =
      observe_commands cs (observe c.now c.linear c.angular c.limited c.latched s).0

  unfoldable pub reported : List (Command R) → CmdVelSummary R → ℕ
  reported [] s = 0
  reported (c ∷ cs) s =
      let (s', line) = observe c.now c.linear c.angular c.limited c.latched s in
      line_count line + reported cs s'

  observe_counts :
      (c : Command R) (s : CmdVelSummary R)
      → let (s', line) = observe c.now c.linear c.angular c.limited c.latched s in
        line_count line + s'.count ≡ suc s.count
  unfolding observe count_command reset
  observe_counts c s = ground arith

  -- Every command is reported once: the counts of the logged lines and of the open window add up to
  -- the commands observed and those of the window that was open before.
  reported_once :
      (cs : List (Command R)) (s : CmdVelSummary R)
      → reported cs s + (observe_commands cs s).count ≡ length cs + s.count
  unfolding reported observe_commands
  reported_once [] s = refl
  reported_once (c ∷ cs) s =
      let (s', line) = observe c.now c.linear c.angular c.limited c.latched s in
      let rest : reported cs s' + (observe_commands cs s').count ≡ length cs + s'.count =
        reported_once cs s' in
      let one : line_count line + s'.count ≡ suc s.count = observe_counts c s in ground arith
