-- ===== src/Bridge/Terminal.antt =====
-- Each step of the interleavings, on the stages, the entries and the queue.

use service_navigation_rbnx.Base.{
  String, Bool, true, false, ◌≡◌, refl, ◌≢◌, inl, inr, none, some, ◌∷◌, arith, Option-cases, subst,
  eq_refl,
}
use service_navigation_rbnx.Float.{Float}
use service_navigation_rbnx.Dict.{Dict, lookup, insert, lookup-insert}
use service_navigation_rbnx.Diagnostics.{Feedback}
use service_navigation_rbnx.Bridge.State.{pending, running, GoalState, Payload, is_terminal}
use service_navigation_rbnx.Bridge.Runs.{
  Outcome, raised, returned, enqueue, navigate, cancel, claim, issue_cancel, cancel_response,
  feedback, entry,
}
use service_navigation_rbnx.Bridge.World.{
  Stage, submitting, queued, claimed, dropped, World, was_accepted,
}
use service_navigation_rbnx.Bridge.Tracked.{
  Queue, Fits, FitsStage, Absent, AllFit-insert, AllFit-stage, Queued-insert, Absent-of_stage,
  Queued-append, Distinct-append,
}
use service_navigation_rbnx.Bridge.Effects.{
  navigate_writes, claim_goes_on, claim_stops, cancel_missing, cancel_response_missing,
  cancel_queue, cancel_response_queue, Fits-stage, Fits-canceled, Fits-same, Fits-accepted,
}
use service_navigation_rbnx.Bridge.Final.{
  FinalKept, FinalKept-refl, final_live, live_at, running_live, cancel_response_cases, cancel_cases,
}
use service_navigation_rbnx.Bridge.Ended.{
  Tracked, Tracked-advance, Tracked-entry, Tracked-take, head_waits, waiting_live,
}

module _ {R H : Type 0} ⦃fl : Float R⦄ where
  abbrev pub TrackedIn : World R H → Type 0
  TrackedIn w = Tracked w.stages w.bridge.goal_states w.bridge.nav_queue

  abbrev pub Ends : World R H → World R H → Type 0
  Ends w v = FinalKept w.bridge.goal_states v.bridge.goal_states

  -- What one step does.
  abbrev pub Safe : World R H → World R H → Type 0
  Safe w v = TrackedIn v × Ends w v

  -- The entry of the run whose code is at a stage between dispatch and result is running.
  live :
      (w : World R H) (run : String) (st : Stage)
      → TrackedIn w
      → lookup run w.stages ≡ some st
      → ((s : GoalState R) → FitsStage st s → is_terminal s.state ≡ false)
      → (s : GoalState R) → lookup run w.bridge.goal_states ≡ some s
      → is_terminal s.state ≡ false
  live w run st t at f = live_at run st w.stages w.bridge.goal_states at f t.fits

  pub navigates-Safe :
      (w : World R H) (run : String)
      → lookup run w.bridge.goal_states ≡ none
      → lookup run w.stages ≡ none
      → w.bridge.ros_ready ≡ true
      → TrackedIn w
      → Safe w
          (record w { bridge = (navigate run w.bridge).0; stages = insert run submitting w.stages })
  navigates-Safe w run new unseen ready t =
      let (states, queue) = navigate_writes run w.bridge ready in
      rw (states, queue)
        (
          record {
            fits = AllFit-insert run submitting (entry pending "queued") _ _ (inl refl) t.fits;
            waiting =
                Queued-insert run submitting w.stages w.bridge.nav_queue
                  (Absent-of_stage run w.stages w.bridge.nav_queue (λ is. cc) t.waiting) t.waiting;
            distinct = t.distinct;
          },
          final_live run _ _ (λ s h. cc),
        )

  pub enqueues-Safe :
      (w : World R H) (run : String) (payload : Payload R)
      → lookup run w.stages ≡ some submitting
      → TrackedIn w
      → Safe w
          (record w { bridge = enqueue run payload w.bridge; stages = insert run queued w.stages })
  unfolding enqueue
  enqueues-Safe w run payload at t =
      let absent : Absent run w.bridge.nav_queue =
        Absent-of_stage run w.stages w.bridge.nav_queue (λ is. cc) t.waiting in
      (
        record {
          fits =
              AllFit-stage run queued w.stages w.bridge.goal_states
                (Fits-stage submitting queued _ (λ s h. h)
                  (subst (λ o. Fits o (lookup run w.bridge.goal_states)) at (t.fits run)))
                t.fits;
          waiting =
              Queued-append run payload (insert run queued w.stages) w.bridge.nav_queue
                (rw lookup-insert (rw (eq_refl run)))
                (Queued-insert run queued w.stages w.bridge.nav_queue absent t.waiting);
          distinct = Distinct-append run payload w.bridge.nav_queue absent t.distinct;
        },
        FinalKept-refl _,
      )

  pub claims-Safe :
      (w : World R H) (run : String) (payload : Payload R) (rest : Queue R)
      → w.bridge.nav_queue ≡ (run, payload) ∷ rest
      → (claim run w.bridge).1 ≡ true
      → TrackedIn w
      → Safe w (record w {
        bridge = (claim run (record (w.bridge) { nav_queue = rest })).0;
        stages = insert run claimed w.stages;
      })
  claims-Safe w run payload rest head on t =
      let (s, found, kept, states, queue) = claim_goes_on run w.bridge rest on in
      let waits : Fits (some queued) (some s) =
        subst (Fits (some queued)) found
          (head_waits run payload rest w.stages w.bridge.goal_states w.bridge.nav_queue t head) in
      rw (states, queue)
        (
          Tracked-take run payload rest claimed w.stages w.bridge.goal_states _ w.bridge.nav_queue t
              head (AllFit-insert run claimed _ w.stages w.bridge.goal_states refl t.fits),
          final_live run _ w.bridge.goal_states (λ u h.
              let live_s : is_terminal s.state ≡ false = waiting_live s waits kept in ground arith),
        )

  pub drops-Safe :
      (w : World R H) (run : String) (payload : Payload R) (rest : Queue R)
      → w.bridge.nav_queue ≡ (run, payload) ∷ rest
      → (claim run w.bridge).1 ≡ false
      → TrackedIn w
      → Safe w (record w {
        bridge = record (w.bridge) { nav_queue = rest };
        stages = insert run dropped w.stages;
      })
  drops-Safe w run payload rest head off t =
      let waits : Fits (some queued) (lookup run w.bridge.goal_states) =
        head_waits run payload rest w.stages w.bridge.goal_states w.bridge.nav_queue t head in
      (
        Tracked-take run payload rest dropped w.stages w.bridge.goal_states _ w.bridge.nav_queue t
            head (AllFit-stage run dropped w.stages w.bridge.goal_states (ended waits) t.fits),
        FinalKept-refl _,
      )
    where
      ended :
          Fits (some queued) (lookup run w.bridge.goal_states)
          → Fits (some dropped) (lookup run w.bridge.goal_states)
      ended h = elim (Option-cases (lookup run w.bridge.goal_states)) [
        | inl missing ↦ rw missing (rw missing at h)
        | inr (s, found) ↦ rw found (claim_stops run w.bridge s off found)
      ]

  -- The code at a live stage writes an entry that fits the next stage.
  pub advances-Safe :
      {stages' : Dict Stage} {states' : Dict (GoalState R)} {queue' : Queue R} (w : World R H)
      (run : String) (st st' : Stage) (e : GoalState R)
      → lookup run w.stages ≡ some st
      → some st ≢ some queued
      → ((s : GoalState R) → FitsStage st s → s.state ≡ running)
      → FitsStage st' e
      → states' ≡ insert run e w.bridge.goal_states
      → stages' ≡ insert run st' w.stages
      → queue' ≡ w.bridge.nav_queue
      → TrackedIn w
      → Tracked stages' states' queue' × FinalKept w.bridge.goal_states states'
  advances-Safe w run st st' e at ne run_live fit states stages queue t =
      rw (states, stages, queue)
        (
          Tracked-advance run st st' e w.stages w.bridge.goal_states w.bridge.nav_queue t at ne fit,
          final_live run e w.bridge.goal_states
              (live w run st t at (λ s f. running_live s (run_live s f))),
        )

  -- A write at a run whose code does not move.
  entry-Safe :
      (w v : World R H) (run : String) (s e : GoalState R)
      → lookup run w.bridge.goal_states ≡ some s
      → (Fits (lookup run w.stages) (some s) → Fits (lookup run w.stages) (some e))
      → v.bridge.goal_states ≡ insert run e w.bridge.goal_states
      → v.stages ≡ w.stages
      → v.bridge.nav_queue ≡ w.bridge.nav_queue
      → TrackedIn w
      → TrackedIn v
  entry-Safe w v run s e found f states stages queue t =
      rw (states, stages, queue)
        (Tracked-entry run s e w.stages w.bridge.goal_states w.bridge.nav_queue t found f)

  -- A step that writes no entry.
  same_states :
      (w v : World R H)
      → v.bridge.goal_states ≡ w.bridge.goal_states
      → v.stages ≡ w.stages
      → v.bridge.nav_queue ≡ w.bridge.nav_queue
      → TrackedIn w
      → TrackedIn v
  same_states w v states stages queue t = rw (states, stages, queue) t

  pub cancels-TrackedIn :
      (w : World R H) (run : String)
      → TrackedIn w
      → TrackedIn (record w { bridge = (cancel run w.bridge).0 })
  cancels-TrackedIn w run t =
      let v = record w { bridge = (cancel run w.bridge).0 } in
      let queue = cancel_queue run w.bridge in
      elim (Option-cases (lookup run w.bridge.goal_states)) [
        | inl missing ↦ same_states w v (cancel_missing run w.bridge missing) refl queue t
        | inr (s, found) ↦ elim (cancel_cases run w.bridge s found) [
          | inl same ↦ same_states w v same refl queue t
          | inr (inl (waits, writes)) ↦
              entry-Safe w v run s _ found (Fits-canceled (lookup run w.stages) s _ waits refl refl)
                writes refl queue t
          | inr (inr (alive, inl writes)) ↦
              entry-Safe w v run s _ found (Fits-same (lookup run w.stages) s _ refl (λ _. refl))
                writes refl queue t
          | inr (inr (alive, inr writes)) ↦
              entry-Safe w v run s _ found (Fits-same (lookup run w.stages) s _ refl (λ _. refl))
                writes refl queue t
        ]
      ]

  pub issues-TrackedIn :
      (w : World R H) (run : String) (o : Outcome (Unit {0}))
      → was_accepted (lookup run w.stages) ≡ true
      → TrackedIn w
      → TrackedIn (record w { bridge = (issue_cancel o run w.bridge).0 })
  unfolding issue_cancel
  issues-TrackedIn w run (returned x) a t = t
  issues-TrackedIn w run (raised e) a t = elim (Option-cases (lookup run w.bridge.goal_states)) [
    | inl missing ↦ rw (missing, issue_cancel) t
    | inr (s, found) ↦
        rw (found, issue_cancel)
          (Tracked-entry run s _ w.stages w.bridge.goal_states w.bridge.nav_queue t found
            (Fits-accepted (lookup run w.stages) s _ a refl))
  ]

  pub feeds-TrackedIn :
      (w : World R H) (run : String) (f : Feedback R)
      → TrackedIn w
      → TrackedIn (record w { bridge = feedback f run w.bridge })
  unfolding feedback
  feeds-TrackedIn w run f t = elim (Option-cases (lookup run w.bridge.goal_states)) [
    | inl missing ↦ rw (missing, feedback) t
    | inr (s, found) ↦
        rw (found, feedback)
          (Tracked-entry run s _ w.stages w.bridge.goal_states w.bridge.nav_queue t found
            (Fits-same (lookup run w.stages) s _ refl (λ r. r)))
  ]

  pub replies-TrackedIn :
      (w : World R H) (run : String) (r : Outcome Bool)
      → was_accepted (lookup run w.stages) ≡ true
      → TrackedIn w
      → TrackedIn (record w { bridge = cancel_response r run w.bridge })
  replies-TrackedIn w run r a t = elim (Option-cases (lookup run w.bridge.goal_states)) [
    | inl missing ↦
        rw (cancel_response_missing run w.bridge r missing, cancel_response_queue run w.bridge r) t
    | inr (s, found) ↦ elim (cancel_response_cases run w.bridge r s found) [
      | inl same ↦ rw (same, cancel_response_queue run w.bridge r) t
      | inr (is_running, writes) ↦
          rw (writes, cancel_response_queue run w.bridge r)
            (Tracked-entry run s _ w.stages w.bridge.goal_states w.bridge.nav_queue t found
              (Fits-accepted (lookup run w.stages) s _ a refl))
    ]
  ]
