-- ===== src/Bridge/World.antt =====
-- The threads of nav2_wrapper/atlas_bridge.py as interleaved steps: one step is one critical section
-- under `_state_lock` or `_speed_lock`, and a thread may stop between any two of its steps. A run's
-- stage is where the code that drives it has come. The executor takes a goal's response only after
-- the thread that sent the goal is back in `spin_once`, so a response follows `mark_sent`.
use mathlib.Core.List.{◌++◌}
use service_navigation_rbnx.Base.{
  String, Bool, true, false, ◌≡◌, ◌≢◌, Option, none, some, List, [], ◌∷◌,
}
use service_navigation_rbnx.Float.{Float}
use service_navigation_rbnx.Dict.{Dict, lookup, insert}
use service_navigation_rbnx.Diagnostics.{Feedback}
use service_navigation_rbnx.Speed.Decide.{SpeedDecision}
use service_navigation_rbnx.Bridge.State.{Payload, Bridge, Nav2Status, SpeedState, session}
use service_navigation_rbnx.Bridge.Runs.{
  CancelPlan, refuse, restore, wait, submit, Outcome, returned, navigate, enqueue, cancel,
  issue_cancel, cancel_response, feedback, claim, not_ready, clear_diagnostics, mark_sent,
  goal_refused, goal_accepted, result,
}
use service_navigation_rbnx.Bridge.Limit.{
  Publish, Request, restore_speed_after_run, refresh_speed_subscriber, prepare,
  apply_speed_decision,
}

pub data Stage : Type 0 where
  submitting queued claimed sent awaiting executing dropped done : Stage

-- `restores` are the runs whose `_restore_speed_after_run` is still to be called, and `committing` is
-- the decision of the thread that holds `_speed_lock` in a mutation, with the owner and `persist`.
pub record World (R H : Type 0) : Type 0 where
  pub bridge : Bridge R H
  pub stages : Dict Stage
  pub restores : List String
  pub committing : Option (SpeedDecision R × String × Bool)

-- Whether Nav2 has accepted the run, so that some thread may hold its handle.
abbrev pub was_accepted : Option Stage → Bool
was_accepted (some executing) = true
was_accepted (some done) = true
was_accepted _ = false

-- A cancel before dispatch is followed by a restore.
abbrev pub after_cancel : {H : Type 0} → CancelPlan H → String → List String → List String
after_cancel (restore detail) run runs = run ∷ runs
after_cancel (refuse detail) run runs = runs
after_cancel (wait detail) run runs = runs
after_cancel (submit h) run runs = runs

abbrev pub set_speed : {R H : Type 0} → SpeedState R → Bridge R H → Bridge R H
set_speed s b = record b { speed = s }

module _ {R H : Type 0} ⦃fl : Float R⦄ where
  pub data Step (w : World R H) : World R H → Type 0 where
    -- a navigate request, under a run id that is new
    navigates :
        (run : String)
        → run ≢ ""
        → lookup run w.bridge.goal_states ≡ none
        → lookup run w.stages ≡ none
        → w.bridge.ros_ready ≡ true
        → Step w (record w {
          bridge = (navigate run w.bridge).0;
          stages = insert run submitting w.stages;
        })
    enqueues :
        (run : String) (payload : Payload R)
        → lookup run w.stages ≡ some submitting
        → Step w (record w {
          bridge = enqueue run payload w.bridge;
          stages = insert run queued w.stages;
        })
    -- the dispatcher takes the head of the queue, and goes on or drops it
    claims :
        (run : String) (payload : Payload R) (rest : List (String × Payload R))
        → w.bridge.nav_queue ≡ (run, payload) ∷ rest
        → (claim run w.bridge).1 ≡ true
        → Step w (record w {
          bridge = (claim run (record (w.bridge) { nav_queue = rest })).0;
          stages = insert run claimed w.stages;
        })
    drops :
        (run : String) (payload : Payload R) (rest : List (String × Payload R))
        → w.bridge.nav_queue ≡ (run, payload) ∷ rest
        → (claim run w.bridge).1 ≡ false
        → Step w (record w {
          bridge = record (w.bridge) { nav_queue = rest };
          stages = insert run dropped w.stages;
        })
    finds_no_server :
        (run : String)
        → lookup run w.stages ≡ some claimed
        → w.bridge.action_ready ≡ false
        → Step w (record w {
          bridge = not_ready run w.bridge;
          stages = insert run dropped w.stages;
          restores = run ∷ w.restores;
        })
    sends :
        (run : String)
        → lookup run w.stages ≡ some claimed
        → w.bridge.action_ready ≡ true
        → Step w
            (record w { bridge = clear_diagnostics w.bridge; stages = insert run sent w.stages })
    marks :
        (run : String)
        → lookup run w.stages ≡ some sent
        → Step w
            (record w { bridge = mark_sent run w.bridge; stages = insert run awaiting w.stages })
    -- the goal's response
    refuses :
        (run reason : String)
        → lookup run w.stages ≡ some awaiting
        → Step w (record w {
          bridge = goal_refused reason run w.bridge;
          stages = insert run dropped w.stages;
          restores = run ∷ w.restores;
        })
    accepts :
        (run : String) (handle : H)
        → lookup run w.stages ≡ some awaiting
        → Step w (record w {
          bridge = (goal_accepted handle run w.bridge).0;
          stages = insert run executing w.stages;
        })
    results :
        (run : String) (outcome : Outcome Nav2Status)
        → lookup run w.stages ≡ some executing
        → Step w (record w {
          bridge = result outcome run w.bridge;
          stages = insert run done w.stages;
          restores = run ∷ w.restores;
        })
    -- cancels, their requests and replies, and feedback
    cancels :
        (run : String)
        → Step w (record w {
          bridge = (cancel run w.bridge).0;
          restores = after_cancel (cancel run w.bridge).1 run w.restores;
        })
    issues :
        (run : String) (outcome : Outcome (Unit {0}))
        → was_accepted (lookup run w.stages) ≡ true
        → Step w (record w { bridge = (issue_cancel outcome run w.bridge).0 })
    replies :
        (run : String) (reply : Outcome Bool)
        → was_accepted (lookup run w.stages) ≡ true
        → Step w (record w { bridge = cancel_response reply run w.bridge })
    feeds :
        (run : String) (summary : Feedback R)
        → Step w (record w { bridge = feedback summary run w.bridge })
    -- the speed limit
    prepares :
        (channels : Bool) (request : Request R) (run owner : String) (persist : Bool)
        (decision : SpeedDecision R)
        → w.committing ≡ none
        → prepare channels request run persist w.bridge ≡ returned (owner, decision)
        → Step w (record w { committing = some (decision, owner, persist) })
    commits :
        (channels : Bool) (outcome : Publish) (decision : SpeedDecision R) (owner : String)
        (persist : Bool)
        → w.committing ≡ some (decision, owner, persist)
        → Step w (record w {
          bridge = (apply_speed_decision channels outcome decision owner persist w.bridge).0;
          committing = none;
        })
    restores_speed :
        (run : String) (before after : List String) (outcome : Publish)
        → w.restores ≡ before ++ run ∷ after
        → w.committing ≡ none
        → Step w (record w {
          bridge = set_speed (restore_speed_after_run outcome run w.bridge.speed) w.bridge;
          restores = before ++ after;
        })
    refreshes :
        (connected : Option Bool) (outcome : Publish)
        → Step w (record w {
          bridge = set_speed (refresh_speed_subscriber connected outcome w.bridge.speed) w.bridge;
        })

  pub data Reach (w : World R H) : World R H → Type 0 where
    here : Reach w w
    next : {u v : World R H} → Reach w u → Step u v → Reach w v

-- The state after `init` has returned: no run yet, and the limit belongs to the session.
pub record IsStart {R H : Type 0} (w : World R H) : Type 0 where
  pub no_runs : w.bridge.goal_states ≡ []
  pub no_stages : w.stages ≡ []
  pub no_queue : w.bridge.nav_queue ≡ []
  pub no_restores : w.restores ≡ []
  pub no_commit : w.committing ≡ none
  pub of_session : w.bridge.speed.scope ≡ session
