-- ===== src/Guard/Latch.antt =====
-- The latch of nav2_wrapper/rotation_guard_core.py: what `evaluate` returns and what clears it.
use service_navigation_rbnx.Base.{
  String, ◌≡◌, sym, Option, none, some, List, [], ◌∷◌, arith, eq_iff, ◌≢◌, All,
}
use service_navigation_rbnx.Float.{Float}
use service_navigation_rbnx.Guard.Core.{
  Reason, RotationGuard, Pose, shortest_angle, new, begin_goal, observe_odom, trip, turn_by,
  start_spin, mark_spin, start_terminal, check_terminal, evaluate_terminal, evaluate_spin, evaluate,
  reset_spin, is_rotating,
}
use service_navigation_rbnx.Guard.Frame.{spun-Same, start_terminal-Same}
use service_navigation_rbnx.Guard.Trace.{Call, begins, clears, observes, evaluates, step, run}

module _ {R : Type 0} ⦃fl : Float R⦄ where
  check_terminal_result :
      (now yaw : R) (g : RotationGuard R)
      → g.latched_reason ≡ none
      → (check_terminal now yaw g).1 ≡ (check_terminal now yaw g).0.latched_reason
  unfolding check_terminal trip
  check_terminal_result now yaw g h = ground arith

  evaluate_terminal_result :
      (now : R) (robot goal : Option (Pose R)) (g : RotationGuard R)
      → g.latched_reason ≡ none
      → (evaluate_terminal now robot goal g).1
        ≡ (evaluate_terminal now robot goal g).0.latched_reason
  unfolding evaluate_terminal
  evaluate_terminal_result now none goal g h = sym h
  evaluate_terminal_result now (some r) none g h = sym h
  evaluate_terminal_result now (some r) (some p) g h =
      let yaw = fl.abs (shortest_angle r.2 p.2) in
      ground (
        arith,
        start_terminal-Same now yaw g,
        check_terminal_result now yaw (start_terminal now yaw g),
      )

  evaluate_spin_result :
      (now : R) (robot goal : Option (Pose R)) (g : RotationGuard R)
      → g.latched_reason ≡ none
      → (evaluate_spin now robot goal g).1 ≡ (evaluate_spin now robot goal g).0.latched_reason
  unfolding evaluate_spin trip
  evaluate_spin_result now robot goal g h =
      let spun = mark_spin now (start_spin now g) in
      ground (arith, spun-Same now g, evaluate_terminal_result now robot goal spun)

  -- `evaluate` returns exactly what is latched when it returns: a reason that it reports is latched,
  -- and it reports nothing only while nothing is latched.
  pub evaluate_result :
      (now lin ang : R) (robot goal : Option (Pose R)) (g : RotationGuard R)
      → let (g', reason) = evaluate now lin ang robot goal g in reason ≡ g'.latched_reason
  unfolding evaluate reset_spin
  evaluate_result now lin ang robot goal g = ground (
    arith,
    evaluate_spin_result now robot goal (record g { rotating = is_rotating g.limits lin ang }),
  )

  -- The call belongs to the goal that is latched: it is not the end of the goal, and no other goal.
  abbrev pub SameGoal : String → Call R → Type 0
  SameGoal uuid (begins u) = u ≡ uuid
  SameGoal uuid clears = ⊥
  SameGoal uuid (observes yaw) = Unit
  SameGoal uuid (evaluates now lin ang robot goal) = Unit

  step_latched :
      (c : Call R) (g : RotationGuard R) (r : Reason)
      → SameGoal g.goal_uuid c
      → g.latched_reason ≡ some r
      → ((step c g).latched_reason ≡ some r) × ((step c g).goal_uuid ≡ g.goal_uuid)
  unfolding step begin_goal observe_odom turn_by evaluate
  step_latched (begins u) g r e h = ground (arith, eq_iff u g.goal_uuid)
  step_latched clears g r e h = absurd e
  step_latched (observes yaw) g r e h = ground arith
  step_latched (evaluates now lin ang robot goal) g r e h = ground arith

  -- A latch is final for its goal: whatever is observed, evaluated or announced again for the same
  -- goal, the first reason stays latched and every later `evaluate` returns it.
  pub latch_is_final :
      (cs : List (Call R)) (g : RotationGuard R) (r : Reason)
      → g.latched_reason ≡ some r
      → All (SameGoal g.goal_uuid) cs
      → (now lin ang : R) (robot goal : Option (Pose R))
      → evaluate now lin ang robot goal (run cs g) ≡ (run cs g, some r)
  unfolding run evaluate
  latch_is_final [] g r h a now lin ang robot goal = rw h
  latch_is_final (c ∷ cs) g r h a now lin ang robot goal =
      let (kept, same) = step_latched c g r a.0 h in
      latch_is_final cs (step c g) r kept (rw same a.1) now lin ang robot goal

  -- Another goal starts from a fresh guard with the same limits, whatever the state before.
  begin_goal_fresh :
      (uuid : String) (g : RotationGuard R)
      → uuid ≢ g.goal_uuid
      → begin_goal uuid g ≡ record (new g.limits) { goal_uuid = uuid }
  unfolding begin_goal new
  begin_goal_fresh uuid g ne = ground (arith, eq_iff uuid g.goal_uuid)
