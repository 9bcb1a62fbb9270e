-- ===== src/Guard/Odometry.antt =====
-- The rotation that `observe_odom` of nav2_wrapper/rotation_guard_core.py adds up.
use service_navigation_rbnx.Base.{
  ◌≡◌, true, Option, none, some, is_some, List, [], ◌∷◌, arith, ◌∙◌, ne_of_test, some_of_is_some,
}
use service_navigation_rbnx.Float.{Float, ◌⊕◌, ◌<?◌}
use service_navigation_rbnx.Guard.Core.{
  RotationGuard, Pose, shortest_angle, observe_odom, turn_by, evaluate, is_rotating, start_spin,
  mark_spin, evaluate_spin, trip, GuardLimits,
}
use service_navigation_rbnx.Guard.Frame.{spun-Same}
use service_navigation_rbnx.Guard.Invariant.{WellFormed}
use service_navigation_rbnx.Guard.Limits.{evaluate_is_spin}

module _ {R : Type 0} ⦃fl : Float R⦄ where
  -- The odometry messages that arrive between two commands.
  unfoldable pub observe_all : List R → RotationGuard R → RotationGuard R
  observe_all [] g = g
  observe_all (yaw ∷ yaws) g = observe_all yaws (observe_odom yaw g)

  -- `total` and the absolute turns from each heading to the next.
  unfoldable pub add_turns : R → R → List R → R
  add_turns total from [] = total
  add_turns total from (yaw ∷ yaws) = add_turns (total ⊕ fl.abs (shortest_angle from yaw)) yaw yaws

  -- The heading that was observed last.
  unfoldable pub last_of : R → List R → R
  last_of from [] = from
  last_of from (yaw ∷ yaws) = last_of yaw yaws

  -- The same for a window that has been entered at some time, or not.
  unfoldable pub add_terminal : Option R → R → R → List R → R
  add_terminal none total from yaws = total
  add_terminal (some t) total from yaws = add_turns total from yaws

  unfoldable pub after_turns : List R → R → RotationGuard R → RotationGuard R
  after_turns yaws from g = record g {
    spin_rotation = add_turns g.spin_rotation from yaws;
    terminal_rotation = add_terminal g.terminal_started_at g.terminal_rotation from yaws;
    last_odom_yaw = some (last_of from yaws);
  }

  observe_odom-adds :
      (yaw : R) (g : RotationGuard R) (from : R)
      → g.rotating ≡ true
      → g.last_odom_yaw ≡ some from
      → observe_odom yaw g ≡ after_turns (yaw ∷ []) from g
  unfolding observe_odom turn_by after_turns add_terminal add_turns last_of
  observe_odom-adds yaw g from rot last = ground arith

  after_turns-cons :
      (yaw : R) (yaws : List R) (from : R) (g : RotationGuard R)
      → after_turns yaws yaw (after_turns (yaw ∷ []) from g) ≡ after_turns (yaw ∷ yaws) from g
  unfolding after_turns add_terminal add_turns last_of
  after_turns-cons yaw yaws from g = ground arith

  after_turns_mode :
      (yaw from : R) (g : RotationGuard R)
      → ((after_turns (yaw ∷ []) from g).rotating ≡ g.rotating)
        × ((after_turns (yaw ∷ []) from g).last_odom_yaw ≡ some yaw)
  unfolding after_turns last_of
  after_turns_mode yaw from g = ground arith

  -- While the guard is rotating and has a heading, the spin grows by exactly the absolute turns that odometry
  -- reports, added one after the other; so does the terminal rotation once its window has been entered,
  -- and nothing else of the guard changes but the last heading.
  observe_all-adds :
      (yaws : List R) (g : RotationGuard R) (from : R)
      → g.rotating ≡ true
      → g.last_odom_yaw ≡ some from
      → observe_all yaws g ≡ after_turns yaws from g
  unfolding observe_all
  observe_all-adds [] g from rot last =
      unfold after_turns add_terminal add_turns last_of in ground arith
  observe_all-adds (yaw ∷ yaws) g from rot last =
      let (mode, heading) = after_turns_mode yaw from g in
      rw (observe_odom-adds yaw g from rot last) (
        observe_all-adds yaws (after_turns (yaw ∷ []) from g) yaw (mode ∙ rot) heading
        ∙ after_turns-cons yaw yaws from g)

  after_turns_keeps :
      (yaws : List R) (from : R) (g : RotationGuard R)
      → ((after_turns yaws from g).latched_reason ≡ g.latched_reason)
        × ((after_turns yaws from g).goal_uuid ≡ g.goal_uuid)
        × ((after_turns yaws from g).limits ≡ g.limits)
        × ((after_turns yaws from g).spin_started_at ≡ g.spin_started_at)
        × ((after_turns yaws from g).spin_rotation ≡ add_turns g.spin_rotation from yaws)
  unfolding after_turns
  after_turns_keeps yaws from g = ground arith

  spun_rotation :
      (now t : R) (g : RotationGuard R)
      → g.spin_started_at ≡ some t
      → (mark_spin now (start_spin now g)).spin_rotation ≡ g.spin_rotation
  unfolding mark_spin start_spin
  spun_rotation now t g h = ground arith

  is_some-trips :
      (now : R) (robot goal : Option (Pose R)) (g : RotationGuard R) (t : R)
      → g.spin_started_at ≡ some t
      → (g.limits.global_spin_limit_rad <? g.spin_rotation) ≡ true
      → is_some (evaluate_spin now robot goal g).1 ≡ true
  unfolding evaluate_spin trip
  is_some-trips now robot goal g t h over =
      ground (arith, (spun-Same now g).limits, spun_rotation now t g h)

  -- No run of odometry escapes the spin limit: in a well-formed, unlatched guard that was rotating and
  -- has a heading, once the spin's rotation and the turns that odometry then reports add up to more
  -- than the limit, the next command that turns the robot in place is tripped.
  pub spin_limit_enforced :
      (limits : GuardLimits R) (yaws : List R) (g : RotationGuard R) (from : R)
      → WellFormed limits g
      → g.rotating ≡ true
      → g.latched_reason ≡ none
      → g.last_odom_yaw ≡ some from
      → (limits.global_spin_limit_rad <? add_turns g.spin_rotation from yaws) ≡ true
      → (now lin ang : R) (robot goal : Option (Pose R)) → is_rotating limits lin ang ≡ true
      → is_some (evaluate now lin ang robot goal (observe_all yaws g)).1 ≡ true
  unfolding after_turns
  spin_limit_enforced limits yaws g from w rot u last over now lin ang robot goal turns =
      let g' = after_turns yaws from g in
      let (latch, uuid, lims, started, spun) = after_turns_keeps yaws from g in
      let (t, some_t) = some_of_is_some g.spin_started_at (w.rotating_spins rot) in
      rw
        (
          observe_all-adds yaws g from rot last,
          evaluate_is_spin now lin ang robot goal g' (latch ∙ u)
              (rw uuid (ne_of_test _ _ (w.rotating_goal rot))) (rw (lims, w.fixed_limits) turns),
        )
        (is_some-trips now robot goal (record g' { rotating = true }) t (started ∙ some_t)
          (rw (lims, w.fixed_limits, spun) over))
