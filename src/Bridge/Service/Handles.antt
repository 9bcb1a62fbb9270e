-- ===== src/Bridge/Service/Handles.antt =====
-- The goal handles that nav2_wrapper/atlas_bridge.py holds are those of runs that Nav2 has accepted.
use service_navigation_rbnx.Base.{
  String, Bool, true, false, ◌≡◌, refl, sym, subst, Option, none, some, is_some, List, [], ◌∷◌,
  ◌=?◌, arith, eq_iff, ne_of_test, Bool-cases, inl, inr,
}
use service_navigation_rbnx.Float.{Float}
use service_navigation_rbnx.Dict.{Dict, lookup, insert, erase, lookup-insert, lookup-erase_ne}
use service_navigation_rbnx.Diagnostics.{Feedback}
use service_navigation_rbnx.Speed.Decide.{SpeedDecision}
use service_navigation_rbnx.Bridge.State.{Bridge, Payload, Nav2Status}
use service_navigation_rbnx.Bridge.Runs.{
  Outcome, raised, returned, navigate, enqueue, cancel, issue_cancel, cancel_response, feedback,
  claim, not_ready, clear_diagnostics, mark_sent, goal_refused, goal_accepted, result,
}
use service_navigation_rbnx.Bridge.Limit.{Publish, apply_speed_decision}
use service_navigation_rbnx.Bridge.World.{
  Stage, submitting, queued, claimed, sent, awaiting, executing, dropped, done, World, Step, Reach,
  here, next, IsStart, was_accepted,
}
use service_navigation_rbnx.Bridge.World
use service_navigation_rbnx.Bridge.Tracked.{Queued}
use service_navigation_rbnx.Bridge.Terminal.{TrackedIn}
use service_navigation_rbnx.Bridge.Interleaving.{Reach-Safe, start-TrackedIn}

module _ {H : Type 0} where
  abbrev pub Accepted : Dict Stage → Dict H → Type 0
  Accepted stages handles =
      (run : String) → is_some (lookup run handles) ≡ true → was_accepted (lookup run stages) ≡ true

  -- A run that Nav2 has not accepted comes to another stage.
  Accepted-stage :
      (gid : String) (st : Stage) (stages : Dict Stage) (handles : Dict H)
      → was_accepted (lookup gid stages) ≡ false
      → Accepted stages handles
      → Accepted (insert gid st stages) handles
  Accepted-stage gid st stages handles before a run held = elim (Bool-cases (gid =? run)) [
    | inl same ↦
        let is : gid ≡ run = (eq_iff gid run).0 same in
        let then_accepted : was_accepted (lookup gid stages) ≡ true =
          subst (λ g. was_accepted (lookup g stages) ≡ true) (sym is) (a run held) in
        cc
    | inr differs ↦ rw (lookup-insert gid run st stages, differs) (a run held)
  ]

  Accepted-put :
      (gid : String) (h : H) (stages : Dict Stage) (handles : Dict H)
      → Accepted stages handles
      → Accepted (insert gid executing stages) (insert gid h handles)
  Accepted-put gid h stages handles a run held = elim (Bool-cases (gid =? run)) [
    | inl same ↦ rw (lookup-insert gid run executing stages, same) refl
    | inr differs ↦
        rw (lookup-insert gid run executing stages, differs)
          (a run (rw (lookup-insert gid run h handles, differs) at held))
  ]

  Accepted-erase :
      (gid : String) (stages : Dict Stage) (handles : Dict H)
      → Accepted stages handles
      → Accepted (insert gid done stages) (erase gid handles)
  Accepted-erase gid stages handles a run held = elim (Bool-cases (gid =? run)) [
    | inl same ↦ rw (lookup-insert gid run done stages, same) refl
    | inr differs ↦
        rw (lookup-insert gid run done stages, differs)
          (a run (
            subst (λ o. is_some o ≡ true)
              (lookup-erase_ne gid run handles (ne_of_test gid run differs)) held))
  ]

module _ {R H : Type 0} (gid : String) (b : Bridge R H) where
  navigate_handles : (navigate gid b).0.goal_handles ≡ b.goal_handles
  unfolding navigate
  navigate_handles = ground arith

  cancel_handles : (cancel gid b).0.goal_handles ≡ b.goal_handles
  unfolding cancel
  cancel_handles = ground arith

  issue_cancel_handles :
      (o : Outcome (Unit {0})) → (issue_cancel o gid b).0.goal_handles ≡ b.goal_handles
  unfolding issue_cancel
  issue_cancel_handles o = ground arith

  cancel_response_handles :
      (r : Outcome Bool) → (cancel_response r gid b).goal_handles ≡ b.goal_handles
  unfolding cancel_response
  cancel_response_handles r = ground arith

  feedback_handles : (f : Feedback R) → (feedback f gid b).goal_handles ≡ b.goal_handles
  unfolding feedback
  feedback_handles f = ground arith

  claim_handles : (claim gid b).0.goal_handles ≡ b.goal_handles
  unfolding claim
  claim_handles = ground arith

  goal_refused_handles :
      (reason : String) → (goal_refused reason gid b).goal_handles ≡ b.goal_handles
  unfolding goal_refused
  goal_refused_handles reason = ground arith

  result_handles :
      ⦃fl : Float R⦄
      → (o : Outcome Nav2Status) → (result o gid b).goal_handles ≡ erase gid b.goal_handles
  unfolding result
  result_handles (returned st) = refl
  result_handles (raised e) = refl

apply_handles :
    {R H : Type 0} ⦃fl : Float R⦄ (channels : Bool) (outcome : Publish) (d : SpeedDecision R)
    (owner : String) (persist : Bool) (b : Bridge R H)
    → (apply_speed_decision channels outcome d owner persist b).0.goal_handles ≡ b.goal_handles
unfolding apply_speed_decision
apply_handles channels outcome d owner persist b = ground arith

-- A run's code moves on before Nav2 has accepted the run.
moves :
    {H : Type 0} {handles' : Dict H} (gid : String) (o : Option Stage) (st : Stage)
    (stages : Dict Stage) (handles : Dict H)
    → lookup gid stages ≡ o
    → was_accepted o ≡ false
    → handles' ≡ handles
    → Accepted stages handles
    → Accepted (insert gid st stages) handles'
moves gid o st stages handles at early same a =
    rw same (Accepted-stage gid st stages handles (rw at early) a)

-- No handle comes and no stage changes.
keeps :
    {H : Type 0} {handles' : Dict H} (stages : Dict Stage) (handles : Dict H)
    → handles' ≡ handles
    → Accepted stages handles
    → Accepted stages handles'
keeps stages handles same a = rw same a

module _ {R H : Type 0} ⦃fl : Float R⦄ where
  abbrev pub HandlesIn : World R H → Type 0
  HandlesIn w = Accepted w.stages w.bridge.goal_handles

  head_queued :
      (w : World R H) (run : String) (payload : Payload R) (rest : List (String × Payload R))
      → w.bridge.nav_queue ≡ (run, payload) ∷ rest
      → TrackedIn w
      → lookup run w.stages ≡ some queued
  head_queued w run payload rest head t = (subst (Queued w.stages) head t.waiting).0

  step-HandlesIn : {w v : World R H} → Step w v → TrackedIn w → HandlesIn w → HandlesIn v
  unfolding enqueue clear_diagnostics not_ready mark_sent goal_accepted
  step-HandlesIn {w} (World.navigates run ne new unseen ready) t a =
      moves run none submitting w.stages w.bridge.goal_handles unseen refl
        (navigate_handles run w.bridge) a
  step-HandlesIn {w} (World.enqueues run payload at) t a =
      moves run (some submitting) queued w.stages w.bridge.goal_handles at refl refl a
  step-HandlesIn {w} (World.claims run payload rest head on) t a =
      moves run (some queued) claimed w.stages w.bridge.goal_handles
        (head_queued w run payload rest head t) refl
        (claim_handles run (record (w.bridge) { nav_queue = rest })) a
  step-HandlesIn {w} (World.drops run payload rest head off) t a =
      moves run (some queued) dropped w.stages w.bridge.goal_handles
        (head_queued w run payload rest head t) refl refl a
  step-HandlesIn {w} (World.finds_no_server run at down) t a =
      moves run (some claimed) dropped w.stages w.bridge.goal_handles at refl refl a
  step-HandlesIn {w} (World.sends run at up) t a =
      moves run (some claimed) sent w.stages w.bridge.goal_handles at refl refl a
  step-HandlesIn {w} (World.marks run at) t a =
      moves run (some sent) awaiting w.stages w.bridge.goal_handles at refl refl a
  step-HandlesIn {w} (World.refuses run reason at) t a =
      moves run (some awaiting) dropped w.stages w.bridge.goal_handles at refl
        (goal_refused_handles run w.bridge reason) a
  step-HandlesIn {w} (World.accepts run handle at) t a =
      Accepted-put run handle w.stages w.bridge.goal_handles a
  step-HandlesIn {w} (World.results run outcome at) t a =
      rw (result_handles run w.bridge outcome) (Accepted-erase run w.stages w.bridge.goal_handles a)
  step-HandlesIn {w} (World.cancels run) t a =
      keeps w.stages w.bridge.goal_handles (cancel_handles run w.bridge) a
  step-HandlesIn {w} (World.issues run outcome ok) t a =
      keeps w.stages w.bridge.goal_handles (issue_cancel_handles run w.bridge outcome) a
  step-HandlesIn {w} (World.replies run reply ok) t a =
      keeps w.stages w.bridge.goal_handles (cancel_response_handles run w.bridge reply) a
  step-HandlesIn {w} (World.feeds run summary) t a =
      keeps w.stages w.bridge.goal_handles (feedback_handles run w.bridge summary) a
  step-HandlesIn (World.prepares channels request run owner persist d free prepared) t a = a
  step-HandlesIn {w} (World.commits channels outcome d owner persist held) t a =
      keeps w.stages w.bridge.goal_handles (apply_handles channels outcome d owner persist w.bridge)
        a
  step-HandlesIn (World.restores_speed run before after outcome at free) t a = a
  step-HandlesIn (World.refreshes connected outcome) t a = a

  Reach-HandlesIn : {w v : World R H} → TrackedIn w → HandlesIn w → Reach w v → HandlesIn v
  Reach-HandlesIn t a here = a
  Reach-HandlesIn t a (next r st) = step-HandlesIn st (Reach-Safe t r).0 (Reach-HandlesIn t a r)

  -- A bridge holds no handles at the start.
  pub held_run_was_accepted :
      {w v : World R H} → IsStart w → w.bridge.goal_handles ≡ [] → Reach w v → HandlesIn v
  unfolding lookup
  held_run_was_accepted {w} start empty r =
      Reach-HandlesIn (start-TrackedIn start)
        (subst (Accepted w.stages) (sym empty) (λ run held. cc)) r
