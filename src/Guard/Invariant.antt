-- ===== src/Guard/Invariant.antt =====
-- The well-formedness of a `RotationGuard` between two calls, whatever the calls and their order.
use service_navigation_rbnx.Base.{
  String, true, false, ◌≡◌, Option, none, some, is_some, ◌=?◌, Bool-cases, inl, inr, List, [], ◌∷◌,
  arith,
}
use service_navigation_rbnx.Float.{Float, ◌<?◌}
use service_navigation_rbnx.Guard.Core.{
  RotationGuard, GuardLimits, Pose, Reason, spin_timeout, spin_limit, expired, new, begin_goal,
  clear_if_idle, observe_odom, turn_by, trip, shortest_angle, start_spin, mark_spin, start_terminal,
  check_terminal, evaluate_terminal, evaluate_spin, evaluate, reset_spin,
}
use service_navigation_rbnx.Guard.Trace.{Call, begins, clears, observes, evaluates, step, run}

-- The spin's two times are set together, and so are those of the terminal window; a robot that counts
-- as rotating has a spin; only an active goal rotates or is latched; the limits are the deployed ones.
pub record WellFormed {R : Type 0} (limits : GuardLimits R) (g : RotationGuard R) : Type 0 where
  pub spin_times : is_some g.last_spin_progress_at ≡ is_some g.spin_started_at
  pub terminal_times : is_some g.last_progress_at ≡ is_some g.terminal_started_at
  pub rotating_spins : g.rotating ≡ true → is_some g.spin_started_at ≡ true
  pub rotating_goal : g.rotating ≡ true → (g.goal_uuid =? "") ≡ false
  pub latched_goal : is_some g.latched_reason ≡ true → (g.goal_uuid =? "") ≡ false
  pub fixed_limits : g.limits ≡ limits

module _ {R : Type 0} ⦃fl : Float R⦄ (limits : GuardLimits R) where
  new-WellFormed : WellFormed limits (new limits)
  unfolding new
  new-WellFormed = ground arith

  begin_goal-WellFormed :
      (uuid : String) (g : RotationGuard R)
      → WellFormed limits g
      → WellFormed limits (begin_goal uuid g)
  unfolding begin_goal
  begin_goal-WellFormed uuid g w = ground arith

  observe_odom-WellFormed :
      (yaw : R) (g : RotationGuard R) → WellFormed limits g → WellFormed limits (observe_odom yaw g)
  unfolding observe_odom turn_by
  observe_odom-WellFormed yaw g w = ground arith

  check_terminal-WellFormed :
      (now yaw : R) (g : RotationGuard R)
      → WellFormed limits g
      → (g.goal_uuid =? "") ≡ false
      → is_some g.terminal_started_at ≡ true
      → WellFormed limits (check_terminal now yaw g).0
  unfolding check_terminal trip
  check_terminal-WellFormed now yaw g w act t = ground arith

  start_terminal-WellFormed :
      (now yaw : R) (g : RotationGuard R)
      → WellFormed limits g
      → WellFormed limits (start_terminal now yaw g)
        × (is_some (start_terminal now yaw g).terminal_started_at ≡ true)
        × ((start_terminal now yaw g).goal_uuid ≡ g.goal_uuid)
  unfolding start_terminal
  start_terminal-WellFormed now yaw g w = ground arith

  evaluate_terminal-WellFormed :
      (now : R) (robot goal : Option (Pose R)) (g : RotationGuard R)
      → WellFormed limits g
      → (g.goal_uuid =? "") ≡ false
      → WellFormed limits (evaluate_terminal now robot goal g).0
  unfolding evaluate_terminal
  evaluate_terminal-WellFormed now none goal g w act = w
  evaluate_terminal-WellFormed now (some r) none g w act = w
  evaluate_terminal-WellFormed now (some r) (some p) g w act =
      let yaw = fl.abs (shortest_angle r.2 p.2) in
      let (w', started, same) = start_terminal-WellFormed now yaw g w in
      let inside : WellFormed limits (check_terminal now yaw (start_terminal now yaw g)).0 =
        check_terminal-WellFormed now yaw (start_terminal now yaw g) w' (rw same act) started in
      ground arith

  -- The spin that is under way after the bookkeeping, for a guard that may just have begun to rotate.
  spun-WellFormed :
      (now : R) (g : RotationGuard R)
      → WellFormed limits g
      → (g.goal_uuid =? "") ≡ false
      → let spun = mark_spin now (start_spin now (record g { rotating = true })) in
        WellFormed limits spun × (spun.goal_uuid ≡ g.goal_uuid)
  unfolding start_spin mark_spin
  spun-WellFormed now g w act = ground arith

  trip-WellFormed :
      (r : Reason) (g : RotationGuard R)
      → WellFormed limits g
      → (g.goal_uuid =? "") ≡ false
      → WellFormed limits (trip r g).0
  unfolding trip
  trip-WellFormed r g w act = ground arith

  evaluate_spin-WellFormed :
      (now : R) (robot goal : Option (Pose R)) (g : RotationGuard R)
      → WellFormed limits g
      → (g.goal_uuid =? "") ≡ false
      → WellFormed limits (evaluate_spin now robot goal (record g { rotating = true })).0
  unfolding evaluate_spin
  evaluate_spin-WellFormed now robot goal g w act =
      let spun = mark_spin now (start_spin now (record g { rotating = true })) in
      let (w', same) = spun-WellFormed now g w act in
      let act' : (spun.goal_uuid =? "") ≡ false = rw same act in
      elim (Bool-cases (expired now spun.last_spin_progress_at spun.limits.global_spin_timeout_s)) [
        | inl late ↦ rw late (trip-WellFormed spin_timeout spun w' act')
        | inr in_time ↦
            elim (Bool-cases (spun.limits.global_spin_limit_rad <? spun.spin_rotation)) [
              | inl over ↦ rw (in_time, over) (trip-WellFormed spin_limit spun w' act')
              | inr in_limit ↦
                  rw (in_time, in_limit) (evaluate_terminal-WellFormed now robot goal spun w' act')
            ]
      ]

  evaluate-WellFormed :
      (now lin ang : R) (robot goal : Option (Pose R)) (g : RotationGuard R)
      → WellFormed limits g
      → WellFormed limits (evaluate now lin ang robot goal g).0
  unfolding evaluate reset_spin
  evaluate-WellFormed now lin ang robot goal g w =
      ground (arith, evaluate_spin-WellFormed now robot goal g w)

  step-WellFormed :
      (c : Call R) (g : RotationGuard R) → WellFormed limits g → WellFormed limits (step c g)
  unfolding step clear_if_idle
  step-WellFormed (begins uuid) g w = begin_goal-WellFormed uuid g w
  step-WellFormed clears g w = ground arith
  step-WellFormed (observes yaw) g w = observe_odom-WellFormed yaw g w
  step-WellFormed (evaluates now lin ang robot goal) g w =
      evaluate-WellFormed now lin ang robot goal g w

  run_from-WellFormed :
      (cs : List (Call R)) (g : RotationGuard R)
      → WellFormed limits g
      → WellFormed limits (run cs g)
  unfolding run
  run_from-WellFormed [] g w = w
  run_from-WellFormed (c ∷ cs) g w = run_from-WellFormed cs (step c g) (step-WellFormed c g w)

  -- However the node calls its guard, the guard stays well formed: spin and terminal times are set in
  -- pairs, a rotating robot has a spin, and only an active goal rotates or is latched.
  pub run-WellFormed : (cs : List (Call R)) → WellFormed limits (run cs (new limits))
  run-WellFormed cs = run_from-WellFormed cs (new limits) new-WellFormed
