-- ===== src/Bridge/Effects.antt =====
-- What each handler writes, at the run whose code it is.
use service_navigation_rbnx.Base.{
  String, Bool, true, false, ◌≡◌, refl, inl, inr, ◌&&◌, if◌then◌else◌, Option, none, some, arith,
  Option-cases,
}
use service_navigation_rbnx.Float.{Float}
use service_navigation_rbnx.Dict.{lookup, insert}
use service_navigation_rbnx.Speed.Decide.{SpeedDecision}
use service_navigation_rbnx.Bridge.State.{
  pending, running, canceled, failed, GoalState, Bridge, Nav2Status, is_terminal,
}
use service_navigation_rbnx.Bridge.Runs.{
  Outcome, raised, returned, navigate, claim, goal_refused, issue_cancel, feedback, entry,
  is_canceled, cancel_requested, cancel, cancel_response, result,
}
use service_navigation_rbnx.Diagnostics.{Feedback}
use service_navigation_rbnx.Bridge.Limit.{Publish, apply_speed_decision, publish_speed_limit}
use service_navigation_rbnx.Bridge.Tracked.{Queue, Fits, FitsStage}
use service_navigation_rbnx.Bridge.World.{
  Stage, submitting, queued, claimed, sent, awaiting, executing, dropped, done, was_accepted,
}

module _ {R H : Type 0} (gid : String) (b : Bridge R H) where
  pub navigate_writes :
      b.ros_ready ≡ true
      → ((navigate gid b).0.goal_states ≡ insert gid (entry pending "queued") b.goal_states)
        × ((navigate gid b).0.nav_queue ≡ b.nav_queue)
  unfolding navigate
  navigate_writes h = ground arith

  -- A claim that goes on found a run that was not canceled in the queue, and marks it as running.
  pub claim_goes_on :
      (rest : Queue R)
      → (claim gid b).1 ≡ true
      → let b' = (claim gid (record b { nav_queue = rest })).0 in
        (s : GoalState R) × (lookup gid b.goal_states ≡ some s)
        × ((is_canceled s.state && s.cancel_requested) ≡ false)
        × (b'.goal_states
            ≡ insert gid (record s { state = running; detail = "dispatching goal" }) b.goal_states)
        × (b'.nav_queue ≡ rest)
  unfolding claim
  claim_goes_on rest h = elim (Option-cases (lookup gid b.goal_states)) [
    | inl missing ↦ ground arith
    | inr (s, found) ↦ (s, found, ground arith, ground arith, ground arith)
  ]

  -- A claim that stops found no run, or one that was canceled in the queue.
  pub claim_stops :
      (s : GoalState R)
      → (claim gid b).1 ≡ false
      → lookup gid b.goal_states ≡ some s
      → is_terminal s.state ≡ true
  unfolding claim
  claim_stops s h found = ground arith

  pub goal_refused_writes :
      (reason : String)
      → (e : GoalState R) × ((goal_refused reason gid b).goal_states ≡ insert gid e b.goal_states)
        × (is_terminal e.state ≡ true)
        × ((goal_refused reason gid b).nav_queue ≡ b.nav_queue)
  unfolding goal_refused
  goal_refused_writes reason = (
    if cancel_requested gid b
        then entry canceled "canceled before acceptance"
        else entry failed reason,
    ground arith,
    ground arith,
    ground arith,
  )

  pub result_writes :
      ⦃fl : Float R⦄
      → (o : Outcome Nav2Status)
      → (e : GoalState R) × ((result o gid b).goal_states ≡ insert gid e b.goal_states)
        × ((result o gid b).nav_queue ≡ b.nav_queue)
  unfolding result
  result_writes (returned st) = (_, refl, refl)
  result_writes (raised error) = (_, refl, refl)

  pub cancel_missing :
      lookup gid b.goal_states ≡ none → (cancel gid b).0.goal_states ≡ b.goal_states
  unfolding cancel
  cancel_missing missing = ground arith

  pub cancel_response_missing :
      (r : Outcome Bool)
      → lookup gid b.goal_states ≡ none
      → (cancel_response r gid b).goal_states ≡ b.goal_states
  unfolding cancel_response
  cancel_response_missing r missing = ground arith

  pub cancel_queue : (cancel gid b).0.nav_queue ≡ b.nav_queue
  unfolding cancel
  cancel_queue = ground arith

  pub cancel_response_queue : (r : Outcome Bool) → (cancel_response r gid b).nav_queue ≡ b.nav_queue
  unfolding cancel_response
  cancel_response_queue r = ground arith

  pub issue_cancel_queue :
      (o : Outcome (Unit {0})) → (issue_cancel o gid b).0.nav_queue ≡ b.nav_queue
  unfolding issue_cancel
  issue_cancel_queue (returned x) = refl
  issue_cancel_queue (raised e) = ground arith

  pub feedback_queue : (f : Feedback R) → (feedback f gid b).nav_queue ≡ b.nav_queue
  unfolding feedback
  feedback_queue f = ground arith

-- A commit touches neither the runs nor the queue.
pub apply_queue :
    {R H : Type 0} ⦃fl : Float R⦄ (channels : Bool) (outcome : Publish) (d : SpeedDecision R)
    (run : String) (persist : Bool) (b : Bridge R H)
    → (apply_speed_decision channels outcome d run persist b).0.nav_queue ≡ b.nav_queue
unfolding apply_speed_decision publish_speed_limit
apply_queue channels outcome d run persist b = ground arith

-- How a run's entry may change without its code.
module _ {R : Type 0} where
  pub Fits-stage :
      (st st' : Stage) (o : Option (GoalState R))
      → ((s : GoalState R) → FitsStage st s → FitsStage st' s)
      → Fits (some st) o
      → Fits (some st') o
  Fits-stage st st' none f h = h
  Fits-stage st st' (some s) f h = f s h

  -- A pending run is canceled while it waits.
  pub Fits-canceled :
      (o : Option Stage) (s e : GoalState R)
      → s.state ≡ pending
      → e.state ≡ canceled
      → e.cancel_requested ≡ true
      → Fits o (some s)
      → Fits o (some e)
  Fits-canceled none s e p c r h = h
  Fits-canceled (some submitting) s e p c r h = inr (c, r)
  Fits-canceled (some queued) s e p c r h = inr (c, r)
  Fits-canceled (some claimed) s e p c r h = cc
  Fits-canceled (some sent) s e p c r h = cc
  Fits-canceled (some awaiting) s e p c r h = cc
  Fits-canceled (some executing) s e p c r h = cc
  Fits-canceled (some dropped) s e p c r h = ground arith
  Fits-canceled (some done) s e p c r h = tt

  -- The entry keeps its state, and its cancel request if there is one.
  pub Fits-same :
      (o : Option Stage) (s e : GoalState R)
      → e.state ≡ s.state
      → (s.cancel_requested ≡ true → e.cancel_requested ≡ true)
      → Fits o (some s)
      → Fits o (some e)
  Fits-same none s e p r h = h
  Fits-same (some submitting) s e p r h = ground arith
  Fits-same (some queued) s e p r h = ground arith
  Fits-same (some claimed) s e p r h = ground arith
  Fits-same (some sent) s e p r h = ground arith
  Fits-same (some awaiting) s e p r h = ground arith
  Fits-same (some executing) s e p r h = ground arith
  Fits-same (some dropped) s e p r h = ground arith
  Fits-same (some done) s e p r h = tt

  -- Nav2 has accepted the run, so that only its state matters.
  pub Fits-accepted :
      (o : Option Stage) (s e : GoalState R)
      → was_accepted o ≡ true
      → e.state ≡ s.state
      → Fits o (some s)
      → Fits o (some e)
  Fits-accepted none s e a p h = h
  Fits-accepted (some executing) s e a p h = ground arith
  Fits-accepted (some done) s e a p h = tt
  Fits-accepted (some other) s e a p h = ground arith
