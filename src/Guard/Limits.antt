-- ===== src/Guard/Limits.antt =====
-- The limits of nav2_wrapper/rotation_guard_core.py on a command that passes and on one that trips.
use service_navigation_rbnx.Base.{
  ◌≡◌, ◌≢◌, ◌⊎◌, inl, inr, true, false, Option, none, some, arith, eq_iff, Bool-cases, subst,
}
use service_navigation_rbnx.Float.{Float, ◌<?◌}
use service_navigation_rbnx.Guard.Core.{
  Reason, spin_timeout, spin_limit, terminal_timeout, terminal_limit, no_progress, RotationGuard,
  Pose, trip, shortest_angle, within_terminal, start_spin, mark_spin, expired, start_terminal,
  check_terminal, evaluate_terminal, evaluate_spin, evaluate, is_rotating,
}
use service_navigation_rbnx.Guard.Frame.{spun-Same}

module _ {R : Type 0} ⦃fl : Float R⦄ where
  -- The limit that a reason names is exceeded.
  abbrev pub Exceeds : R → RotationGuard R → Reason → Type 0
  Exceeds now g spin_timeout =
      expired now g.last_spin_progress_at g.limits.global_spin_timeout_s ≡ true
  Exceeds now g spin_limit = (g.limits.global_spin_limit_rad <? g.spin_rotation) ≡ true
  Exceeds now g terminal_timeout =
      expired now g.terminal_started_at g.limits.terminal_timeout_s ≡ true
  Exceeds now g terminal_limit = (g.terminal_allowed_rotation <? g.terminal_rotation) ≡ true
  Exceeds now g no_progress = expired now g.last_progress_at g.limits.terminal_no_progress_s ≡ true

  -- Both limits on the spin hold.
  pub record SpinAllowed (now : R) (g : RotationGuard R) : Type 0 where
    pub in_time : expired now g.last_spin_progress_at g.limits.global_spin_timeout_s ≡ false
    pub in_limit : (g.limits.global_spin_limit_rad <? g.spin_rotation) ≡ false

  -- The limits of the terminal window hold; there was progress in yaw just now, or lately enough.
  pub record TerminalAllowed (now : R) (g : RotationGuard R) : Type 0 where
    pub in_time : expired now g.terminal_started_at g.limits.terminal_timeout_s ≡ false
    pub in_limit : (g.terminal_allowed_rotation <? g.terminal_rotation) ≡ false
    pub progress :
        (g.last_progress_at ≡ some now)
        ⊎ (expired now g.last_progress_at g.limits.terminal_no_progress_s ≡ false)

  -- The spin and its limits are the same in both.
  record SameSpin (g h : RotationGuard R) : Type 0 where
    limits : h.limits ≡ g.limits
    spin_rotation : h.spin_rotation ≡ g.spin_rotation
    last_spin_progress_at : h.last_spin_progress_at ≡ g.last_spin_progress_at

  SameSpin-refl : (g : RotationGuard R) → SameSpin g g
  SameSpin-refl g = ground arith

  -- What a call that began unlatched has established: `P` if it lets the command pass, and that the
  -- named limit is exceeded if it trips.
  abbrev pub Verdict : (RotationGuard R → Type 0) → R → RotationGuard R × Option Reason → Type 0
  Verdict P now (g, none) = P g
  Verdict P now (g, some r) = Exceeds now g r

  Verdict-mono :
      (P Q : RotationGuard R → Type 0) (now : R) (v : RotationGuard R × Option Reason)
      → ((g : RotationGuard R) → P g → Q g)
      → Verdict P now v
      → Verdict Q now v
  Verdict-mono P Q now (g, none) f h = f g h
  Verdict-mono P Q now (g, some r) f h = h

  check_terminal-Verdict :
      (now yaw : R) (g : RotationGuard R)
      → Verdict (TerminalAllowed now) now (check_terminal now yaw g)
  unfolding check_terminal trip
  check_terminal-Verdict now yaw g = ground arith

  evaluate_terminal-Verdict :
      (now : R) (robot goal : Pose R) (g : RotationGuard R)
      → within_terminal g.limits robot goal ≡ true
      → Verdict (TerminalAllowed now) now (evaluate_terminal now (some robot) (some goal) g)
  unfolding evaluate_terminal
  evaluate_terminal-Verdict now robot goal g h =
      let yaw = fl.abs (shortest_angle robot.2 goal.2) in
      rw h (check_terminal-Verdict now yaw (start_terminal now yaw g))

  check_terminal_keeps :
      (now yaw : R) (g : RotationGuard R) → SameSpin g (check_terminal now yaw g).0
  unfolding check_terminal trip
  check_terminal_keeps now yaw g = ground arith

  start_terminal_keeps : (now yaw : R) (g : RotationGuard R) → SameSpin g (start_terminal now yaw g)
  unfolding start_terminal
  start_terminal_keeps now yaw g = ground arith

  evaluate_terminal_keeps :
      (now : R) (robot goal : Option (Pose R)) (g : RotationGuard R)
      → SameSpin g (evaluate_terminal now robot goal g).0
  unfolding evaluate_terminal
  evaluate_terminal_keeps now none goal g = SameSpin-refl g
  evaluate_terminal_keeps now (some r) none g = SameSpin-refl g
  evaluate_terminal_keeps now (some r) (some p) g =
      let yaw = fl.abs (shortest_angle r.2 p.2) in
      ground (
        arith,
        start_terminal_keeps now yaw g,
        check_terminal_keeps now yaw (start_terminal now yaw g),
      )

  -- A trip of the terminal window is for the limit that it names.
  evaluate_terminal_sound :
      (now : R) (robot goal : Option (Pose R)) (g : RotationGuard R)
      → Verdict (λ _. Unit {0}) now (evaluate_terminal now robot goal g)
  unfolding evaluate_terminal
  evaluate_terminal_sound now none goal g = tt
  evaluate_terminal_sound now (some r) none g = tt
  evaluate_terminal_sound now (some r) (some p) g =
      let yaw = fl.abs (shortest_angle r.2 p.2) in
      elim (Bool-cases (within_terminal g.limits r p)) [
        | inl inside ↦ rw inside (
            Verdict-mono (TerminalAllowed now) (λ _. Unit {0}) now
              (check_terminal now yaw (start_terminal now yaw g)) (λ _ _. tt)
              (check_terminal-Verdict now yaw (start_terminal now yaw g)))
        | inr outside ↦ rw outside tt
      ]

  SpinAllowed-of_same :
      (now : R) (g : RotationGuard R) (v : RotationGuard R × Option Reason)
      → SpinAllowed now g
      → SameSpin g v.0
      → Verdict (λ _. Unit {0}) now v
      → Verdict (SpinAllowed now) now v
  SpinAllowed-of_same now g (h, none) a s t = ground arith
  SpinAllowed-of_same now g (h, some r) a s t = t

  evaluate_spin-Verdict :
      (now : R) (robot goal : Option (Pose R)) (g : RotationGuard R)
      → Verdict (SpinAllowed now) now (evaluate_spin now robot goal g)
  unfolding evaluate_spin trip
  evaluate_spin-Verdict now robot goal g =
      let spun = mark_spin now (start_spin now g) in
      elim (Bool-cases (expired now spun.last_spin_progress_at spun.limits.global_spin_timeout_s)) [
        | inl late ↦ rw late late
        | inr in_time ↦
            elim (Bool-cases (spun.limits.global_spin_limit_rad <? spun.spin_rotation)) [
              | inl over ↦ rw (in_time, over) over
              | inr in_limit ↦
                  rw (in_time, in_limit)
                    (SpinAllowed-of_same now spun _
                      (record { in_time = in_time; in_limit = in_limit })
                      (evaluate_terminal_keeps now robot goal spun)
                      (evaluate_terminal_sound now robot goal spun))
            ]
      ]

  evaluate_spin_terminal :
      (now : R) (robot goal : Pose R) (g : RotationGuard R)
      → within_terminal g.limits robot goal ≡ true
      → Verdict (TerminalAllowed now) now (evaluate_spin now (some robot) (some goal) g)
  unfolding evaluate_spin trip
  evaluate_spin_terminal now robot goal g inside =
      let spun = mark_spin now (start_spin now g) in
      elim (Bool-cases (expired now spun.last_spin_progress_at spun.limits.global_spin_timeout_s)) [
        | inl late ↦ rw late late
        | inr in_time ↦
            elim (Bool-cases (spun.limits.global_spin_limit_rad <? spun.spin_rotation)) [
              | inl over ↦ rw (in_time, over) over
              | inr in_limit ↦
                  rw (in_time, in_limit)
                    (evaluate_terminal-Verdict now robot goal spun
                      (rw (spun-Same now g).limits inside))
            ]
      ]

  Verdict-trip :
      (P : RotationGuard R → Type 0) (now : R) (v : RotationGuard R × Option Reason) (r : Reason)
      → v.1 ≡ some r
      → Verdict P now v
      → Exceeds now v.0 r
  Verdict-trip P now (g, none) r e h = cc
  Verdict-trip P now (g, some q) r e h = let same : q ≡ r = cc in subst (Exceeds now g) same h

  evaluate_trips_active :
      (now lin ang : R) (robot goal : Option (Pose R)) (g : RotationGuard R) (r : Reason)
      → g.latched_reason ≡ none
      → (evaluate now lin ang robot goal g).1 ≡ some r
      → (g.goal_uuid ≢ "") × (is_rotating g.limits lin ang ≡ true)
  unfolding evaluate
  evaluate_trips_active now lin ang robot goal g r u h =
      (λ e. ground (arith, eq_iff g.goal_uuid ""), ground arith)

  pub evaluate_is_spin :
      (now lin ang : R) (robot goal : Option (Pose R)) (g : RotationGuard R)
      → g.latched_reason ≡ none
      → g.goal_uuid ≢ ""
      → is_rotating g.limits lin ang ≡ true
      → evaluate now lin ang robot goal g
        ≡ evaluate_spin now robot goal (record g { rotating = true })
  unfolding evaluate
  evaluate_is_spin now lin ang robot goal g u act rot = ground (arith, eq_iff g.goal_uuid "")

  pub evaluate-SpinAllowed :
      (now lin ang : R) (robot goal : Option (Pose R)) (g : RotationGuard R)
      → g.latched_reason ≡ none
      → g.goal_uuid ≢ ""
      → is_rotating g.limits lin ang ≡ true
      → Verdict (SpinAllowed now) now (evaluate now lin ang robot goal g)
  evaluate-SpinAllowed now lin ang robot goal g u act rot =
      rw (evaluate_is_spin now lin ang robot goal g u act rot)
        (evaluate_spin-Verdict now robot goal (record g { rotating = true }))

  pub evaluate-TerminalAllowed :
      (now lin ang : R) (robot goal : Pose R) (g : RotationGuard R)
      → g.latched_reason ≡ none
      → g.goal_uuid ≢ ""
      → is_rotating g.limits lin ang ≡ true
      → within_terminal g.limits robot goal ≡ true
      → Verdict (TerminalAllowed now) now (evaluate now lin ang (some robot) (some goal) g)
  evaluate-TerminalAllowed now lin ang robot goal g u act rot inside =
      rw (evaluate_is_spin now lin ang (some robot) (some goal) g u act rot)
        (evaluate_spin_terminal now robot goal (record g { rotating = true }) inside)

  -- From an unlatched guard `evaluate` trips only for a goal that is active and a command that turns
  -- the robot in place, and only when the limit that it names is exceeded.
  pub evaluate_trips_soundly :
      (now lin ang : R) (robot goal : Option (Pose R)) (g : RotationGuard R) (r : Reason)
      → g.latched_reason ≡ none
      → (evaluate now lin ang robot goal g).1 ≡ some r
      → (g.goal_uuid ≢ "")
        × (is_rotating g.limits lin ang ≡ true)
        × Exceeds now (evaluate now lin ang robot goal g).0 r
  evaluate_trips_soundly now lin ang robot goal g r u h =
      let (act, rot) = evaluate_trips_active now lin ang robot goal g r u h in
      (
        act,
        rot,
        Verdict-trip (SpinAllowed now) now (evaluate now lin ang robot goal g) r h
            (evaluate-SpinAllowed now lin ang robot goal g u act rot),
      )
