-- ===== src/Velocity/Tests.antt =====
-- A window of `CmdVelSummary` over fixed-point numbers, and an instance of its theorem.
use service_navigation_rbnx.Base.{◌≡◌, refl, false, List, [], ◌∷◌}
use service_navigation_rbnx.Int.{ℤ, pos}
use service_navigation_rbnx.Fixed.{fixed}
use service_navigation_rbnx.Velocity.{CmdVelSummary, new_summary, observe, count_command, reset}
use service_navigation_rbnx.Velocity.Window.{Command, reported}

abbrev summary : CmdVelSummary ℤ
summary = new_summary (pos 1_000_000) (pos 20_000)

abbrev at : ℤ → Command ℤ
at now = record {
  now = now;
  linear = pos 300_000;
  angular = pos 0;
  limited = false;
  latched = false;
}

-- The third command closes the window, and the fourth opens the next.
abbrev four : List (Command ℤ)
four = at (pos 0) ∷ at (pos 500_000) ∷ at (pos 1_000_000) ∷ at (pos 1_100_000) ∷ []

three_reported : reported four summary ≡ 3
unfolding reported observe count_command reset new_summary
three_reported = refl
