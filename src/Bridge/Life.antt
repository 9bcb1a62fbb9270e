-- ===== src/Bridge/Life.antt =====
-- The life of a run as its clients see it, and how the steps of nav2_wrapper/atlas_bridge.py follow it.
use service_navigation_rbnx.Base.{
  String, Bool, true, ◌≡◌, refl, inl, inr, Option, none, some, arith, eq_iff, Bool-cases,
  Option-cases, ◌=?◌, subst, ap,
}
use service_navigation_rbnx.Float.{Float}
use service_navigation_rbnx.Dict.{Dict, lookup, insert, lookup-insert}
use service_navigation_rbnx.Diagnostics.{Feedback}
use service_navigation_rbnx.Bridge.State.{
  RunState, pending, running, succeeded, failed, canceled, GoalState, Bridge, Nav2Status,
  is_terminal, canonical_state,
}
use service_navigation_rbnx.Bridge.Runs.{
  Outcome, raised, returned, cancel, issue_cancel, cancel_response, feedback, result, not_ready,
  clear_diagnostics, mark_sent, goal_accepted, enqueue,
}
use service_navigation_rbnx.Bridge.World.{
  Stage, queued, claimed, sent, awaiting, executing, World, Step, Reach, here, next, IsStart,
}
use service_navigation_rbnx.Bridge.World
use service_navigation_rbnx.Bridge.Cover.{apply_scope}
use service_navigation_rbnx.Bridge.Tracked.{Fits, FitsStage, AllFit}
use service_navigation_rbnx.Bridge.Effects.{
  navigate_writes, claim_goes_on, goal_refused_writes, cancel_missing, cancel_response_missing,
}
use service_navigation_rbnx.Bridge.Final.{cancel_cases, cancel_response_cases}
use service_navigation_rbnx.Bridge.Ended.{head_waits}
use service_navigation_rbnx.Bridge.Terminal.{TrackedIn}
use service_navigation_rbnx.Bridge.Interleaving.{start-TrackedIn, Reach-Safe}

-- One move of a run's life, as its clients see it: `none` before the run is known.
pub data Life : Option RunState → Option RunState → Type 0 where
  stays : {o : Option RunState} → Life o o
  queues : Life none (some pending)
  dispatches : Life (some pending) (some running)
  cancels_early : Life (some pending) (some canceled)
  succeeds : Life (some running) (some succeeded)
  fails : Life (some running) (some failed)
  cancels : Life (some running) (some canceled)

pub data Lives (o : Option RunState) : Option RunState → Type 0 where
  born : Lives o o
  moves : {p q : Option RunState} → Lives o p → Life p q → Lives o q

module _ {R : Type 0} where
  abbrev pub phase_of : Option (GoalState R) → Option RunState
  phase_of none = none
  phase_of (some s) = some s.state

  -- What `_status_impl` reports of a run.
  abbrev pub phase : Dict (GoalState R) → String → Option RunState
  phase d run = phase_of (lookup run d)

  abbrev LifeKept : Dict (GoalState R) → Dict (GoalState R) → Type 0
  LifeKept d d' = (run : String) → Life (phase d run) (phase d' run)

  life_insert :
      (gid : String) (e : GoalState R) (d : Dict (GoalState R)) (o : Option RunState)
      → phase d gid ≡ o
      → Life o (some e.state)
      → LifeKept d (insert gid e d)
  life_insert gid e d o was life run = elim (Bool-cases (gid =? run)) [
    | inl same ↦
        let is : gid ≡ run = (eq_iff gid run).0 same in
        let now : phase (insert gid e d) run ≡ some e.state =
          rw (lookup-insert gid run e d, same) refl in
        rw (now, ← is, was) life
    | inr differs ↦ rw (lookup-insert gid run e d, differs) stays
  ]

  life_same :
      (gid : String) (old e : GoalState R) (d : Dict (GoalState R))
      → lookup gid d ≡ some old
      → e.state ≡ old.state
      → LifeKept d (insert gid e d)
  life_same gid old e d found same =
      life_insert gid e d (some e.state) (rw (found, same) refl) stays

  -- The code of a run that Nav2 has in hand finds it running.
  running_phase :
      (gid : String) (st : Stage) (stages : Dict Stage) (d : Dict (GoalState R))
      → lookup gid stages ≡ some st
      → ((s : GoalState R) → FitsStage st s → s.state ≡ running)
      → AllFit stages d
      → phase d gid ≡ some running
  running_phase gid st stages d at runs fits =
      go (lookup gid d) (subst (λ o. Fits o (lookup gid d)) at (fits gid))
    where
      go : (o : Option (GoalState R)) → Fits (some st) o → phase_of o ≡ some running
      go none f = absurd f
      go (some s) f = ap (λ x. some x) (runs s f)

ends : (s : RunState) → is_terminal s ≡ true → Life (some running) (some s)
ends pending h = cc
ends running h = cc
ends succeeded h = succeeds
ends failed h = fails
ends canceled h = cancels

answers : (st : Nav2Status) → Life (some running) (some (canonical_state st))
unfolding canonical_state
answers Nav2Status.unknown = stays
answers Nav2Status.accepted = stays
answers Nav2Status.executing = stays
answers Nav2Status.canceling = stays
answers Nav2Status.succeeded = succeeds
answers Nav2Status.canceled = cancels
answers Nav2Status.aborted = fails
answers (Nav2Status.other n) = fails

module _ {R H : Type 0} (gid : String) (b : Bridge R H) where
  issue_cancel_life :
      (o : Outcome (Unit {0})) → LifeKept b.goal_states (issue_cancel o gid b).0.goal_states
  unfolding issue_cancel
  issue_cancel_life (returned x) = λ run. stays
  issue_cancel_life (raised e) = elim (Option-cases (lookup gid b.goal_states)) [
    | inl missing ↦ rw (missing, issue_cancel) (λ run. stays)
    | inr (s, found) ↦ rw (found, issue_cancel) (life_same gid s _ b.goal_states found refl)
  ]

  feedback_life : (f : Feedback R) → LifeKept b.goal_states (feedback f gid b).goal_states
  unfolding feedback
  feedback_life f = elim (Option-cases (lookup gid b.goal_states)) [
    | inl missing ↦ rw (missing, feedback) (λ run. stays)
    | inr (s, found) ↦ rw (found, feedback) (life_same gid s _ b.goal_states found refl)
  ]

  cancel_response_life :
      (r : Outcome Bool) → LifeKept b.goal_states (cancel_response r gid b).goal_states
  cancel_response_life r = elim (Option-cases (lookup gid b.goal_states)) [
    | inl missing ↦ rw (cancel_response_missing gid b r missing) (λ run. stays)
    | inr (s, found) ↦ elim (cancel_response_cases gid b r s found) [
      | inl same ↦ rw same (λ run. stays)
      | inr (_, writes) ↦ rw writes (life_same gid s _ b.goal_states found refl)
    ]
  ]

  cancel_life : LifeKept b.goal_states (cancel gid b).0.goal_states
  cancel_life = elim (Option-cases (lookup gid b.goal_states)) [
    | inl missing ↦ rw (cancel_missing gid b missing) (λ run. stays)
    | inr (s, found) ↦ elim (cancel_cases gid b s found) [
      | inl same ↦ rw same (λ run. stays)
      | inr (inl (waits, writes)) ↦
          rw writes
            (life_insert gid _ b.goal_states (some pending) (rw (found, waits) refl) cancels_early)
      | inr (inr (_, inl writes)) ↦ rw writes (life_same gid s _ b.goal_states found refl)
      | inr (inr (_, inr writes)) ↦ rw writes (life_same gid s _ b.goal_states found refl)
    ]
  ]

  result_life :
      ⦃fl : Float R⦄
      → (o : Outcome Nav2Status) → phase b.goal_states gid ≡ some running
      → LifeKept b.goal_states (result o gid b).goal_states
  unfolding result
  result_life (returned st) at = life_insert gid _ b.goal_states (some running) at (answers st)
  result_life (raised e) at = life_insert gid _ b.goal_states (some running) at fails

module _ {R H : Type 0} ⦃fl : Float R⦄ where
  abbrev LifeStep : World R H → World R H → Type 0
  LifeStep w v = LifeKept w.bridge.goal_states v.bridge.goal_states

  at_stage :
      (w : World R H) (run : String) (st : Stage)
      → TrackedIn w
      → lookup run w.stages ≡ some st
      → ((s : GoalState R) → FitsStage st s → s.state ≡ running)
      → phase w.bridge.goal_states run ≡ some running
  at_stage w run st t at runs = running_phase run st w.stages w.bridge.goal_states at runs t.fits

  step_life : {w v : World R H} → Step w v → TrackedIn w → LifeStep w v
  unfolding enqueue clear_diagnostics not_ready mark_sent goal_accepted
  step_life {w} (World.navigates run ne new unseen ready) t =
      rw (navigate_writes run w.bridge ready).0
        (life_insert run _ w.bridge.goal_states none (rw new refl) queues)
  step_life {w} (World.enqueues run payload at) t = λ r. stays
  step_life {w} (World.claims run payload rest head on) t =
      let (s, found, kept, states, _) = claim_goes_on run w.bridge rest on in
      let waits : Fits (some queued) (some s) =
        subst (Fits (some queued)) found
          (head_waits run payload rest w.stages w.bridge.goal_states w.bridge.nav_queue t head) in
      let is_pending : s.state ≡ pending = ground arith in
      rw states (
        life_insert run _ w.bridge.goal_states (some pending) (rw (found, is_pending) refl)
          dispatches)
  step_life {w} (World.drops run payload rest head off) t = λ r. stays
  step_life {w} (World.finds_no_server run at down) t =
      life_insert run _ w.bridge.goal_states (some running) (at_stage w run claimed t at (λ s f. f))
        fails
  step_life {w} (World.sends run at up) t = λ r. stays
  step_life {w} (World.marks run at) t =
      life_insert run _ w.bridge.goal_states (some running) (at_stage w run sent t at (λ s f. f))
        stays
  step_life {w} (World.refuses run reason at) t =
      let (e, writes, ended, _) = goal_refused_writes run w.bridge reason in
      rw writes (
        life_insert run e w.bridge.goal_states (some running)
          (at_stage w run awaiting t at (λ s f. f)) (ends e.state ended))
  step_life {w} (World.accepts run handle at) t =
      life_insert run _ w.bridge.goal_states (some running)
        (at_stage w run awaiting t at (λ s f. f)) stays
  step_life {w} (World.results run outcome at) t =
      result_life run w.bridge outcome (at_stage w run executing t at (λ s f. f))
  step_life {w} (World.cancels run) t = cancel_life run w.bridge
  step_life {w} (World.issues run outcome a) t = issue_cancel_life run w.bridge outcome
  step_life {w} (World.replies run reply a) t = cancel_response_life run w.bridge reply
  step_life {w} (World.feeds run summary) t = feedback_life run w.bridge summary
  step_life {w} (World.prepares channels request run owner persist d free prepared) t = λ r. stays
  step_life {w} (World.commits channels outcome d owner persist held) t =
      rw (apply_scope channels outcome d owner persist w.bridge).0 (λ r. stays)
  step_life {w} (World.restores_speed run before after outcome at free) t = λ r. stays
  step_life {w} (World.refreshes connected outcome) t = λ r. stays

  path_life :
      {u v : World R H}
      → TrackedIn u
      → Reach u v
      → (run : String) → Lives (phase u.bridge.goal_states run) (phase v.bridge.goal_states run)
  path_life t here run = born
  path_life t (next r st) run = moves (path_life t r run) (step_life st (Reach-Safe t r).0 run)

  -- From a bridge without runs, whatever the order of the threads' steps, the state that a run shows to
  -- its clients goes from any moment that is reached to any later one along a path of the abstract life
  -- of a run.
  pub path_refines :
      {w u v : World R H}
      → IsStart w
      → Reach w u
      → Reach u v
      → (run : String) → Lives (phase u.bridge.goal_states run) (phase v.bridge.goal_states run)
  path_refines start r r' run = path_life (Reach-Safe (start-TrackedIn start) r).0 r' run
