-- ===== src/Bridge/Final.antt =====
-- What each handler of nav2_wrapper/atlas_bridge.py does to the entry of a run that has ended.
use service_navigation_rbnx.Base.{
  String, Bool, true, false, ◌≡◌, refl, ◌⊎◌, inl, inr, some, arith, eq_iff, Bool-cases,
  Option-cases, ◌=?◌, sym, subst,
}
use service_navigation_rbnx.Dict.{Dict, lookup, insert, lookup-insert}
use service_navigation_rbnx.Diagnostics.{Feedback}
use service_navigation_rbnx.Bridge.State.{
  pending, running, canceled, GoalState, Bridge, is_terminal,
}
use service_navigation_rbnx.Bridge.Runs.{
  Outcome, raised, returned, cancel, issue_cancel, cancel_response, feedback, cancel_reply,
  early_text, queued_text, submit_text,
}
use service_navigation_rbnx.Bridge.World.{Stage}
use service_navigation_rbnx.Bridge.Tracked.{Fits, FitsStage, AllFit}

module _ {R : Type 0} where
  -- Every run that has ended in the first dict has ended in the same way in the second.
  abbrev pub FinalKept : Dict (GoalState R) → Dict (GoalState R) → Type 0
  FinalKept d d' =
      (run : String) (s : GoalState R)
      → lookup run d ≡ some s
      → is_terminal s.state ≡ true
      → (s' : GoalState R) × (lookup run d' ≡ some s') × (s'.state ≡ s.state)

  pub FinalKept-refl : (d : Dict (GoalState R)) → FinalKept d d
  FinalKept-refl d run s h t = (s, h, refl)

  -- A write to a run that has not ended.
  pub final_live :
      (gid : String) (e : GoalState R) (d : Dict (GoalState R))
      → ((s : GoalState R) → lookup gid d ≡ some s → is_terminal s.state ≡ false)
      → FinalKept d (insert gid e d)
  final_live gid e d live run s h t = elim (Bool-cases (gid =? run)) [
    | inl same ↦
        let found : lookup gid d ≡ some s =
          subst (λ g. lookup g d ≡ some s) (sym ((eq_iff gid run).0 same)) h in
        ground (arith, live s found)
    | inr differs ↦ (s, rw (lookup-insert gid run e d, differs) h, refl)
  ]

  -- A write that leaves the run's state.
  pub final_same :
      (gid : String) (old e : GoalState R) (d : Dict (GoalState R))
      → lookup gid d ≡ some old
      → e.state ≡ old.state
      → FinalKept d (insert gid e d)
  final_same gid old e d o same_state run s h t = elim (Bool-cases (gid =? run)) [
    | inl same ↦
        let found : lookup gid d ≡ some s =
          subst (λ g. lookup g d ≡ some s) (sym ((eq_iff gid run).0 same)) h in
        (e, rw (lookup-insert gid run e d, same) refl, ground arith)
    | inr differs ↦ (s, rw (lookup-insert gid run e d, differs) h, refl)
  ]

  -- A run whose code is between dispatch and result has not ended.
  pub live_at :
      (gid : String) (st : Stage) (stages : Dict Stage) (d : Dict (GoalState R))
      → lookup gid stages ≡ some st
      → ((s : GoalState R) → FitsStage st s → is_terminal s.state ≡ false)
      → AllFit stages d
      → (s : GoalState R) → lookup gid d ≡ some s
      → is_terminal s.state ≡ false
  live_at gid st stages d at live fits s h =
      live s (subst (λ o. Fits o (some s)) at (subst (Fits (lookup gid stages)) h (fits gid)))

  pub running_live : (s : GoalState R) → s.state ≡ running → is_terminal s.state ≡ false
  running_live s h = rw h refl

module _ {R H : Type 0} (gid : String) (b : Bridge R H) where
  pub issue_cancel-FinalKept :
      (o : Outcome (Unit {0})) → FinalKept b.goal_states (issue_cancel o gid b).0.goal_states
  unfolding issue_cancel
  issue_cancel-FinalKept (returned x) = FinalKept-refl _
  issue_cancel-FinalKept (raised e) = elim (Option-cases (lookup gid b.goal_states)) [
    | inl missing ↦ rw (missing, issue_cancel) (FinalKept-refl _)
    | inr (s, found) ↦ rw (found, issue_cancel) (final_same gid s _ b.goal_states found refl)
  ]

  pub feedback-FinalKept : (f : Feedback R) → FinalKept b.goal_states (feedback f gid b).goal_states
  unfolding feedback
  feedback-FinalKept f = elim (Option-cases (lookup gid b.goal_states)) [
    | inl missing ↦ rw (missing, feedback) (FinalKept-refl _)
    | inr (s, found) ↦ rw (found, feedback) (final_same gid s _ b.goal_states found refl)
  ]

  pub cancel_response_cases :
      (r : Outcome Bool) (s : GoalState R)
      → lookup gid b.goal_states ≡ some s
      → ((cancel_response r gid b).goal_states ≡ b.goal_states)
        ⊎ ((s.state ≡ running)
            × ((cancel_response r gid b).goal_states
                ≡ insert gid
                    (record s {
                      detail = (cancel_reply r).1;
                      cancel_requested = (cancel_reply r).0;
                    })
                    b.goal_states))
  unfolding cancel_response
  cancel_response_cases r s found = ground arith

  pub cancel_response-FinalKept :
      (r : Outcome Bool) → FinalKept b.goal_states (cancel_response r gid b).goal_states
  unfolding cancel_response
  cancel_response-FinalKept r = elim (Option-cases (lookup gid b.goal_states)) [
    | inl missing ↦ rw (missing, cancel_response) (FinalKept-refl _)
    | inr (s, found) ↦ elim (cancel_response_cases r s found) [
      | inl same ↦ rw same (FinalKept-refl _)
      | inr (is_running, writes) ↦ rw writes (final_same gid s _ b.goal_states found refl)
    ]
  ]

  -- What `cancel` does to the entry of a run that is known.
  pub cancel_cases :
      (s : GoalState R)
      → lookup gid b.goal_states ≡ some s
      → ((cancel gid b).0.goal_states ≡ b.goal_states)
        ⊎ (((s.state ≡ pending)
              × ((cancel gid b).0.goal_states
                  ≡ insert gid
                      (record s { state = canceled; detail = early_text; cancel_requested = true })
                      b.goal_states))
            ⊎ ((is_terminal s.state ≡ false)
                × ((((cancel gid b).0.goal_states
                      ≡ insert gid
                          (record s { detail = queued_text; cancel_requested = true })
                          b.goal_states))
                    ⊎ ((cancel gid b).0.goal_states
                        ≡ insert gid
                            (record s { detail = submit_text; cancel_requested = true })
                            b.goal_states))))
  unfolding cancel
  cancel_cases s found = ground arith

  live_found :
      (s t : GoalState R)
      → lookup gid b.goal_states ≡ some s
      → is_terminal s.state ≡ false
      → lookup gid b.goal_states ≡ some t
      → is_terminal t.state ≡ false
  live_found s t found live h = ground arith

  pub cancel-FinalKept : FinalKept b.goal_states (cancel gid b).0.goal_states
  unfolding cancel
  cancel-FinalKept = elim (Option-cases (lookup gid b.goal_states)) [
    | inl missing ↦ rw (missing, cancel) (FinalKept-refl _)
    | inr (s, found) ↦ elim (cancel_cases s found) [
      | inl same ↦ rw same (FinalKept-refl _)
      | inr (inl (waits, writes)) ↦
          rw writes (final_live gid _ b.goal_states (λ t. live_found s t found (rw waits refl)))
      | inr (inr (live, inl writes)) ↦ rw writes (final_same gid s _ b.goal_states found refl)
      | inr (inr (live, inr writes)) ↦ rw writes (final_same gid s _ b.goal_states found refl)
    ]
  ]
