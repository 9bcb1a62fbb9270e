-- ===== src/Bridge/Interleaving.antt =====
-- The runs of nav2_wrapper/atlas_bridge.py under every interleaving.

use service_navigation_rbnx.Base.{String, true, ◌≡◌, refl, some, [], ◌∙◌}
use service_navigation_rbnx.Float.{Float}
use service_navigation_rbnx.Dict.{Dict, lookup}
use service_navigation_rbnx.Bridge.State.{failed, GoalState, is_terminal}
use service_navigation_rbnx.Bridge.Runs.{
  not_ready, clear_diagnostics, mark_sent, goal_accepted, entry,
}
use service_navigation_rbnx.Bridge.World.{
  Stage, submitting, queued, claimed, sent, awaiting, executing, dropped, done, World, was_accepted,
  Step, Reach, here, next, IsStart,
}
use service_navigation_rbnx.Bridge.World
use service_navigation_rbnx.Bridge.Cover.{apply_scope}
use service_navigation_rbnx.Bridge.Effects.{result_writes, goal_refused_writes, apply_queue}
use service_navigation_rbnx.Bridge.Final.{
  FinalKept, FinalKept-refl, issue_cancel-FinalKept, feedback-FinalKept, cancel_response-FinalKept,
  cancel-FinalKept,
}
use service_navigation_rbnx.Bridge.Ended.{Tracked, Tracked-stage}
use service_navigation_rbnx.Bridge.Terminal.{
  TrackedIn, Safe, navigates-Safe, enqueues-Safe, claims-Safe, drops-Safe, advances-Safe,
  cancels-TrackedIn, issues-TrackedIn, replies-TrackedIn, feeds-TrackedIn,
}

module _ {R : Type 0} where
  FinalKept-trans : (a b c : Dict (GoalState R)) → FinalKept a b → FinalKept b c → FinalKept a c
  FinalKept-trans a b c f g run s h t =
      let (s', found, same) = f run s h t in
      let (s'', found', same') = g run s' found (rw same t) in (s'', found', same' ∙ same)

  nothing-Tracked : Tracked {R = R} [] [] []
  unfolding lookup
  nothing-Tracked = record { fits = λ run. tt; waiting = tt; distinct = tt }

module _ {R H : Type 0} ⦃fl : Float R⦄ where
  pub step-Safe : {w v : World R H} → Step w v → TrackedIn w → Safe w v
  unfolding clear_diagnostics not_ready mark_sent goal_accepted
  step-Safe {w} (World.navigates run ne new unseen ready) t =
      navigates-Safe w run new unseen ready t
  step-Safe {w} (World.enqueues run payload at) t = enqueues-Safe w run payload at t
  step-Safe {w} (World.claims run payload rest head on) t = claims-Safe w run payload rest head on t
  step-Safe {w} (World.drops run payload rest head off) t = drops-Safe w run payload rest head off t
  step-Safe {w} (World.finds_no_server run at down) t =
      advances-Safe w run claimed dropped (entry failed "nav action server not ready") at (λ e. cc)
        (λ s f. f) refl refl refl refl t
  step-Safe {w} (World.sends run at up) t = (
    Tracked-stage run claimed sent w.stages w.bridge.goal_states w.bridge.nav_queue t at (λ e. cc)
        (λ s f. f),
    FinalKept-refl _,
  )
  step-Safe {w} (World.marks run at) t =
      advances-Safe w run sent awaiting _ at (λ e. cc) (λ s f. f) refl refl refl refl t
  step-Safe {w} (World.refuses run reason at) t =
      let (e, writes, ended, queue) = goal_refused_writes run w.bridge reason in
      advances-Safe w run awaiting dropped e at (λ e. cc) (λ s f. f) ended writes refl queue t
  step-Safe {w} (World.accepts run handle at) t =
      advances-Safe w run awaiting executing _ at (λ e. cc) (λ s f. f) refl refl refl refl t
  step-Safe {w} (World.results run outcome at) t =
      let (e, writes, queue) = result_writes run w.bridge outcome in
      advances-Safe w run executing done e at (λ e. cc) (λ s f. f) tt writes refl queue t
  step-Safe {w} (World.cancels run) t = (cancels-TrackedIn w run t, cancel-FinalKept run w.bridge)
  step-Safe {w} (World.issues run outcome a) t =
      (issues-TrackedIn w run outcome a t, issue_cancel-FinalKept run w.bridge outcome)
  step-Safe {w} (World.replies run reply a) t =
      (replies-TrackedIn w run reply a t, cancel_response-FinalKept run w.bridge reply)
  step-Safe {w} (World.feeds run summary) t =
      (feeds-TrackedIn w run summary t, feedback-FinalKept run w.bridge summary)
  step-Safe {w} (World.prepares channels request run owner persist d free prepared) t =
      (t, FinalKept-refl _)
  step-Safe {w} (World.commits channels outcome d owner persist held) t =
      rw
        (
          (apply_scope channels outcome d owner persist w.bridge).0,
          apply_queue channels outcome d owner persist w.bridge,
        )
        (t, FinalKept-refl _)
  step-Safe {w} (World.restores_speed run before after outcome at free) t = (t, FinalKept-refl _)
  step-Safe {w} (World.refreshes connected outcome) t = (t, FinalKept-refl _)

  pub Reach-Safe : {w v : World R H} → TrackedIn w → Reach w v → Safe w v
  Reach-Safe t here = (t, FinalKept-refl _)
  Reach-Safe t (next r st) =
      let (t', f) = Reach-Safe t r in
      let (t'', g) = step-Safe st t' in (t'', FinalKept-trans _ _ _ f g)

  pub start-TrackedIn : {w : World R H} → IsStart w → TrackedIn w
  start-TrackedIn s = rw (s.no_runs, s.no_stages, s.no_queue) nothing-Tracked

  -- From a bridge without runs, whatever the order in which the threads take their steps, a run that
  -- has succeeded, failed or been canceled is still known later, in the same state.
  pub ended_run_stays :
      {w u v : World R H}
      → IsStart w
      → Reach w u
      → Reach u v
      → (run : String) (s : GoalState R) → lookup run u.bridge.goal_states ≡ some s
      → is_terminal s.state ≡ true
      → (s' : GoalState R) × (lookup run v.bridge.goal_states ≡ some s') × (s'.state ≡ s.state)
  ended_run_stays start r r' run s found ended =
      (Reach-Safe (Reach-Safe (start-TrackedIn start) r).0 r').1 run s found ended
