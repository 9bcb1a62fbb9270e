-- ===== src/Guard/Tests.antt =====
-- Runs of the rotation guard over fixed-point numbers, and instances of its theorems.
use service_navigation_rbnx.Base.{
  ◌≡◌, refl, ◌≢◌, none, some, true, is_some, List, [], ◌∷◌, ne_of_test,
}
use service_navigation_rbnx.Int.{ℤ, pos}
use service_navigation_rbnx.Fixed.{fixed}
use service_navigation_rbnx.Guard.Core.{
  spin_limit, GuardLimits, RotationGuard, Pose, new, begin_goal, turn_by, trip, observe_odom,
  shortest_angle, is_rotating, start_spin, mark_spin, evaluate_spin, within_terminal,
  evaluate_terminal, evaluate,
}
use service_navigation_rbnx.Guard.Trace.{begins, observes, evaluates, run, step}
use service_navigation_rbnx.Guard.Latch.{latch_is_final}
use service_navigation_rbnx.Guard.Limits.{
  SpinAllowed, TerminalAllowed, Verdict, evaluate-SpinAllowed, evaluate-TerminalAllowed,
  evaluate_trips_soundly,
}
use service_navigation_rbnx.Guard.Invariant.{WellFormed, run-WellFormed}
use service_navigation_rbnx.Guard.Odometry.{observe_all, add_turns, spin_limit_enforced}

-- All that a run computes with.
guard_code : Unit {0}
unfolding run step begin_goal new observe_odom turn_by evaluate evaluate_spin start_spin mark_spin
    is_rotating evaluate_terminal within_terminal trip shortest_angle observe_all add_turns
guard_code = tt

-- The defaults of `GuardLimits`, in millionths.
abbrev limits : GuardLimits ℤ
limits = record {
  terminal_xy_m = pos 450_000;
  rotating_linear_mps = pos 50_000;
  rotating_angular_rps = pos 50_000;
  terminal_timeout_s = pos 15_000_000;
  terminal_rotation_margin_rad = pos 500_000;
  terminal_no_progress_s = pos 3_000_000;
  terminal_min_progress_rad = pos 40_000;
  global_spin_timeout_s = pos 25_000_000;
  global_spin_limit_rad = pos 6_783_185;
  global_min_progress_rad = pos 40_000;
}

-- One command that turns at 1 rad/s in place, and the first heading.
abbrev turning : RotationGuard ℤ
turning =
    run
      (begins "a"
        ∷ observes (pos 0)
        ∷ evaluates (pos 1_000_000) (pos 0) (pos 1_000_000) none none
        ∷ [])
      (new limits)

-- Four turns of 2 rad each.
abbrev yaws : List ℤ
yaws = pos 2_000_000 ∷ pos 4_000_000 ∷ pos 6_000_000 ∷ pos 8_000_000 ∷ []

turning-WellFormed : WellFormed limits turning
turning-WellFormed = run-WellFormed limits _

run-WellFormed_example : WellFormed limits turning
run-WellFormed_example = run-WellFormed limits (
    begins "a"
    ∷ observes (pos 0)
    ∷ evaluates (pos 1_000_000) (pos 0) (pos 1_000_000) none none
    ∷ [])

spin_limit_enforced_example :
    is_some
      (evaluate (pos 2_000_000) (pos 0) (pos 1_000_000) none none (observe_all yaws turning)).1
    ≡ true
unfolding guard_code
spin_limit_enforced_example =
    spin_limit_enforced limits yaws turning (pos 0) turning-WellFormed refl refl refl refl
      (pos 2_000_000) (pos 0) (pos 1_000_000) none none refl

-- After the four turns the guard has tripped for the rotation limit.
abbrev latched : RotationGuard ℤ
latched = (evaluate (pos 2_000_000) (pos 0) (pos 1_000_000) none none (observe_all yaws turning)).0

latched_for_limit : latched.latched_reason ≡ some spin_limit
unfolding guard_code
latched_for_limit = refl

latched_goal : latched.goal_uuid ≡ "a"
unfolding guard_code
latched_goal = refl

-- Driving on does not clear the latch.
latch_is_final_example :
    evaluate (pos 9_000_000) (pos 500_000) (pos 0) none none (
      run
        (observes (pos 1) ∷ evaluates (pos 3_000_000) (pos 500_000) (pos 0) none none ∷ [])
        latched)
    ≡ (
      run
          (observes (pos 1) ∷ evaluates (pos 3_000_000) (pos 500_000) (pos 0) none none ∷ [])
          latched,
      some spin_limit,
    )
latch_is_final_example =
    latch_is_final
      (observes (pos 1) ∷ evaluates (pos 3_000_000) (pos 500_000) (pos 0) none none ∷ []) latched
      spin_limit latched_for_limit (tt, (tt, tt)) (pos 9_000_000) (pos 500_000) (pos 0) none none

b-ne-a : "b" ≢ latched.goal_uuid
b-ne-a = rw latched_goal (ne_of_test _ _ refl)

abbrev begun : RotationGuard ℤ
begun = begin_goal "a" (new limits)

begun_goal : begun.goal_uuid ≢ ""
unfolding guard_code
begun_goal = ne_of_test "a" "" refl

evaluate-SpinAllowed_example :
    Verdict
      (SpinAllowed (pos 1_000_000))
      (pos 1_000_000)
      (evaluate (pos 1_000_000) (pos 0) (pos 1_000_000) none none begun)
unfolding guard_code
evaluate-SpinAllowed_example =
    evaluate-SpinAllowed (pos 1_000_000) (pos 0) (pos 1_000_000) none none begun refl begun_goal
      refl

abbrev robot : Pose ℤ
robot = (pos 100_000, pos 0, pos 0)

abbrev goal : Pose ℤ
goal = (pos 0, pos 0, pos 1_000_000)

evaluate-TerminalAllowed_example :
    Verdict
      (TerminalAllowed (pos 1_000_000))
      (pos 1_000_000)
      (evaluate (pos 1_000_000) (pos 0) (pos 1_000_000) (some robot) (some goal) begun)
unfolding guard_code
evaluate-TerminalAllowed_example =
    evaluate-TerminalAllowed (pos 1_000_000) (pos 0) (pos 1_000_000) robot goal begun refl
      begun_goal refl refl

evaluate_trips_soundly_example :
    fixed.lt (limits.global_spin_limit_rad) (latched.spin_rotation) ≡ true
unfolding guard_code
evaluate_trips_soundly_example =
    (evaluate_trips_soundly (pos 2_000_000) (pos 0) (pos 1_000_000) none none
      (observe_all yaws turning) spin_limit refl refl).2
