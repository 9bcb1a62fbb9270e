-- ===== src/Bridge/Waiting.antt =====
-- The queue of nav2_wrapper/atlas_bridge.py holds every run that waits in it.
use mathlib.Core.List.{◌++◌}
use service_navigation_rbnx.Base.{
  String, ◌≡◌, refl, ◌≢◌, ◌⊎◌, inl, inr, some, [], ◌∷◌, eq_iff, ne_of_test, Bool-cases, ◌=?◌, sym,
  subst, ◌∙◌,
}
use service_navigation_rbnx.Float.{Float}
use service_navigation_rbnx.Dict.{Dict, lookup, insert, lookup-insert}
use service_navigation_rbnx.Bridge.State.{Payload}
use service_navigation_rbnx.Bridge.Runs.{
  enqueue, clear_diagnostics, not_ready, mark_sent, goal_accepted,
}
use service_navigation_rbnx.Bridge.World.{
  Stage, submitting, queued, claimed, sent, awaiting, executing, dropped, done, World, Step, Reach,
  here, next, IsStart,
}
use service_navigation_rbnx.Bridge.World
use service_navigation_rbnx.Bridge.Tracked.{Queue}
use service_navigation_rbnx.Bridge.Effects.{
  navigate_writes, claim_goes_on, goal_refused_writes, cancel_queue, cancel_response_queue,
  issue_cancel_queue, feedback_queue, apply_queue, result_writes,
}

module _ {R : Type 0} where
  abbrev pub InQueue : String → Queue R → Type 0
  InQueue run [] = ⊥
  InQueue run (e ∷ es) = (e.0 ≡ run) ⊎ InQueue run es

  abbrev pub AllWait : Dict Stage → Queue R → Type 0
  AllWait stages q = (run : String) → lookup run stages ≡ some queued → InQueue run q

  InQueue-append : (run : String) (q r : Queue R) → InQueue run q → InQueue run (q ++ r)
  InQueue-append run [] r h = absurd h
  InQueue-append run (e ∷ es) r (inl same) = inl same
  InQueue-append run (e ∷ es) r (inr later) = inr (InQueue-append run es r later)

  InQueue-last :
      (run : String) (payload : Payload R) (q : Queue R) → InQueue run (q ++ (run, payload) ∷ [])
  InQueue-last run payload [] = inl refl
  InQueue-last run payload (e ∷ es) = inr (InQueue-last run payload es)

  -- A run's code comes to a stage other than the queue.
  AllWait-insert :
      (gid : String) (st : Stage) (stages : Dict Stage) (q : Queue R)
      → some st ≢ some queued
      → AllWait stages q
      → AllWait (insert gid st stages) q
  AllWait-insert gid st stages q ne all run at = elim (Bool-cases (gid =? run)) [
    | inl same ↦ absurd (ne (sym (rw (lookup-insert gid run st stages, same) refl) ∙ at))
    | inr differs ↦ all run (rw (lookup-insert gid run st stages, differs) at at)
  ]

  -- The head of the queue is taken, and its code moves on.
  AllWait-take :
      (gid : String) (payload : Payload R) (st : Stage) (stages : Dict Stage) (q rest : Queue R)
      → some st ≢ some queued
      → q ≡ (gid, payload) ∷ rest
      → AllWait stages q
      → AllWait (insert gid st stages) rest
  AllWait-take gid payload st stages q rest ne head all run at = elim (Bool-cases (gid =? run)) [
    | inl same ↦ absurd (ne (sym (rw (lookup-insert gid run st stages, same) refl) ∙ at))
    | inr differs ↦
        let waits : InQueue run ((gid, payload) ∷ rest) =
          subst (InQueue run) head
            (all run (rw (lookup-insert gid run st stages, differs) at at)) in
        elim waits [ inl is ↦ absurd (ne_of_test gid run differs is) | inr later ↦ later ]
  ]

  AllWait-enqueue :
      (gid : String) (payload : Payload R) (stages : Dict Stage) (q : Queue R)
      → AllWait stages q
      → AllWait (insert gid queued stages) (q ++ (gid, payload) ∷ [])
  AllWait-enqueue gid payload stages q all run at = elim (Bool-cases (gid =? run)) [
    | inl same ↦
        subst (λ r. InQueue r (q ++ (gid, payload) ∷ [])) ((eq_iff gid run).0 same)
          (InQueue-last gid payload q)
    | inr differs ↦
        InQueue-append run q ((gid, payload) ∷ [])
          (all run (rw (lookup-insert gid run queued stages, differs) at at))
  ]

none_waits : (R : Type 0) → AllWait {R = R} [] []
unfolding lookup
none_waits R run at = cc

module _ {R H : Type 0} ⦃fl : Float R⦄ where
  abbrev pub Awaited : World R H → Type 0
  Awaited w = AllWait w.stages w.bridge.nav_queue

  pub step-Awaited : {w v : World R H} → Step w v → Awaited w → Awaited v
  unfolding enqueue clear_diagnostics not_ready mark_sent goal_accepted
  step-Awaited {w} (World.navigates run ne new unseen ready) a =
      rw (navigate_writes run w.bridge ready).1
        (AllWait-insert run submitting w.stages _ (λ e. cc) a)
  step-Awaited {w} (World.enqueues run payload at) a = AllWait-enqueue run payload w.stages _ a
  step-Awaited {w} (World.claims run payload rest head on) a =
      let (_, _, _, _, queue) = claim_goes_on run w.bridge rest on in
      rw queue (AllWait-take run payload claimed w.stages _ rest (λ e. cc) head a)
  step-Awaited {w} (World.drops run payload rest head off) a =
      AllWait-take run payload dropped w.stages _ rest (λ e. cc) head a
  step-Awaited {w} (World.finds_no_server run at down) a =
      AllWait-insert run dropped w.stages _ (λ e. cc) a
  step-Awaited {w} (World.sends run at up) a = AllWait-insert run sent w.stages _ (λ e. cc) a
  step-Awaited {w} (World.marks run at) a = AllWait-insert run awaiting w.stages _ (λ e. cc) a
  step-Awaited {w} (World.refuses run reason at) a =
      let (_, _, _, queue) = goal_refused_writes run w.bridge reason in
      rw queue (AllWait-insert run dropped w.stages _ (λ e. cc) a)
  step-Awaited {w} (World.accepts run handle at) a =
      AllWait-insert run executing w.stages _ (λ e. cc) a
  step-Awaited {w} (World.results run outcome at) a =
      let (_, _, queue) = result_writes run w.bridge outcome in
      rw queue (AllWait-insert run done w.stages _ (λ e. cc) a)
  step-Awaited {w} (World.cancels run) a = rw (cancel_queue run w.bridge) a
  step-Awaited {w} (World.issues run outcome _) a = rw (issue_cancel_queue run w.bridge outcome) a
  step-Awaited {w} (World.replies run reply _) a = rw (cancel_response_queue run w.bridge reply) a
  step-Awaited {w} (World.feeds run summary) a = rw (feedback_queue run w.bridge summary) a
  step-Awaited {w} (World.prepares channels request run owner persist d free prepared) a = a
  step-Awaited {w} (World.commits channels outcome d owner persist held) a =
      rw (apply_queue channels outcome d owner persist w.bridge) a
  step-Awaited {w} (World.restores_speed run before after outcome at free) a = a
  step-Awaited {w} (World.refreshes connected outcome) a = a

  pub Reach-Awaited : {w v : World R H} → Awaited w → Reach w v → Awaited v
  Reach-Awaited a here = a
  Reach-Awaited a (next r st) = step-Awaited st (Reach-Awaited a r)

  pub start-Awaited : {w : World R H} → IsStart w → Awaited w
  start-Awaited s = rw (s.no_stages, s.no_queue) (none_waits R)
