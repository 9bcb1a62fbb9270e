-- ===== src/Bridge/Frame.antt =====
-- What each handler of a run leaves alone: the speed state, the other runs, and the activity of runs
-- that it does not end.
use service_navigation_rbnx.Base.{
  String, Bool, true, false, ◌≡◌, refl, ◌≢◌, Option, none, some, arith, eq_iff, Option-cases, inl,
  inr,
}
use service_navigation_rbnx.Float.{Float}
use service_navigation_rbnx.Dict.{Dict, lookup, insert, lookup-insert}
use service_navigation_rbnx.Diagnostics.{Feedback}
use service_navigation_rbnx.Bridge.State.{
  pending, running, canceled, failed, GoalState, Bridge, Nav2Status, is_active,
}
use service_navigation_rbnx.Bridge.Runs.{
  CancelPlan, restore, Outcome, raised, returned, navigate, cancel, issue_cancel, cancel_response,
  feedback, claim, mark_sent, goal_refused, goal_accepted, result, entry, early_text, queued_text,
  submit_text,
}

abbrev pub is_active_entry : {R : Type 0} → Option (GoalState R) → Bool
is_active_entry none = false
is_active_entry (some s) = is_active s.state

-- Whether a plan restores the speed.
abbrev pub is_restore : {H : Type 0} → CancelPlan H → Bool
is_restore (restore d) = true
is_restore _ = false

module _ {R : Type 0} where
  abbrev pub Active : Dict (GoalState R) → String → Type 0
  Active d run = is_active_entry (lookup run d) ≡ true

  -- No run is ended between the two.
  abbrev pub Keeps : Dict (GoalState R) → Dict (GoalState R) → Type 0
  Keeps d d' = (run : String) → Active d run → Active d' run

  pub insert_other :
      (gid run : String) (entry : GoalState R) (d : Dict (GoalState R))
      → run ≢ gid
      → lookup run (insert gid entry d) ≡ lookup run d
  insert_other gid run entry d ne = ground (arith, lookup-insert gid run entry d, eq_iff gid run)

  insert_active :
      (gid : String) (entry : GoalState R) (d : Dict (GoalState R))
      → is_active entry.state ≡ true
      → Keeps d (insert gid entry d)
  insert_active gid entry d h run a = ground (arith, lookup-insert gid run entry d, eq_iff gid run)

  -- An entry that is written over the run's own, in the same state.
  insert_same :
      (gid : String) (old entry : GoalState R) (d : Dict (GoalState R))
      → lookup gid d ≡ some old
      → entry.state ≡ old.state
      → Keeps d (insert gid entry d)
  insert_same gid old entry d o h run a =
      ground (arith, lookup-insert gid run entry d, eq_iff gid run)

module _ {R H : Type 0} (gid : String) (b : Bridge R H) where
  pub navigate-Keeps : Keeps b.goal_states (navigate gid b).0.goal_states
  unfolding navigate
  navigate-Keeps run a =
      ground (arith, insert_active gid (entry pending "queued") b.goal_states refl run)

  pub claim-Keeps : Keeps b.goal_states (claim gid b).0.goal_states
  unfolding claim
  claim-Keeps run a = elim (Option-cases (lookup gid b.goal_states)) [
    | inl missing ↦ rw (missing, claim) a
    | inr (s, found) ↦ ground (
      arith,
      insert_active gid (record s { state = running; detail = "dispatching goal" }) b.goal_states
          refl run,
    )
  ]

  pub mark_sent-Keeps : Keeps b.goal_states (mark_sent gid b).goal_states
  unfolding mark_sent
  mark_sent-Keeps = insert_active gid _ b.goal_states refl

  pub goal_accepted-Keeps : (h : H) → Keeps b.goal_states (goal_accepted h gid b).0.goal_states
  unfolding goal_accepted
  goal_accepted-Keeps h = insert_active gid _ b.goal_states refl

  pub feedback-Keeps : (f : Feedback R) → Keeps b.goal_states (feedback f gid b).goal_states
  unfolding feedback
  feedback-Keeps f run a = elim (Option-cases (lookup gid b.goal_states)) [
    | inl missing ↦ rw (missing, feedback) a
    | inr (s, found) ↦ rw (found, feedback) (insert_same gid s _ b.goal_states found refl run a)
  ]

  pub issue_cancel-Keeps :
      (o : Outcome (Unit {0})) → Keeps b.goal_states (issue_cancel o gid b).0.goal_states
  unfolding issue_cancel
  issue_cancel-Keeps (returned x) run a = a
  issue_cancel-Keeps (raised e) run a = elim (Option-cases (lookup gid b.goal_states)) [
    | inl missing ↦ rw (missing, issue_cancel) a
    | inr (s, found) ↦ rw (found, issue_cancel) (insert_same gid s _ b.goal_states found refl run a)
  ]

  pub cancel_response-Keeps :
      (reply : Outcome Bool) → Keeps b.goal_states (cancel_response reply gid b).goal_states
  unfolding cancel_response
  cancel_response-Keeps reply run a = elim (Option-cases (lookup gid b.goal_states)) [
    | inl missing ↦ rw (missing, cancel_response) a
    | inr (s, found) ↦ grind (arith, λ (e : GoalState R). insert_same gid s e b.goal_states found)
  ]

  -- A cancel that does not restore the speed ends no run.
  pub cancel-Keeps :
      is_restore (cancel gid b).1 ≡ false → Keeps b.goal_states (cancel gid b).0.goal_states
  unfolding cancel
  cancel-Keeps h run a = elim (Option-cases (lookup gid b.goal_states)) [
    | inl missing ↦ rw (missing, cancel) a
    | inr (s, found) ↦ ground (
      arith,
      insert_same gid s (record s { detail = queued_text; cancel_requested = true }) b.goal_states
          found refl run,
      insert_same gid s (record s { detail = submit_text; cancel_requested = true }) b.goal_states
          found refl run,
    )
  ]

  -- The handlers that may end run `gid` end no other.
  pub cancel_others :
      (run : String)
      → run ≢ gid
      → lookup run (cancel gid b).0.goal_states ≡ lookup run b.goal_states
  unfolding cancel
  cancel_others run ne = elim (Option-cases (lookup gid b.goal_states)) [
    | inl missing ↦ rw (missing, cancel) refl
    | inr (s, found) ↦ ground (
      arith,
      insert_other gid run
          (record s { state = canceled; detail = early_text; cancel_requested = true })
          b.goal_states ne,
      insert_other gid run (record s { detail = queued_text; cancel_requested = true })
          b.goal_states ne,
      insert_other gid run (record s { detail = submit_text; cancel_requested = true })
          b.goal_states ne,
    )
  ]

  pub goal_refused_others :
      (reason run : String)
      → run ≢ gid
      → lookup run (goal_refused reason gid b).goal_states ≡ lookup run b.goal_states
  unfolding goal_refused
  goal_refused_others reason run ne = ground (
    arith,
    insert_other gid run (entry canceled "canceled before acceptance") b.goal_states ne,
    insert_other gid run (entry failed reason) b.goal_states ne,
  )

  pub result_others :
      ⦃fl : Float R⦄
      → (o : Outcome Nav2Status) (run : String) → run ≢ gid
      → lookup run (result o gid b).goal_states ≡ lookup run b.goal_states
  unfolding result
  result_others (returned st) run ne = insert_other gid run _ b.goal_states ne
  result_others (raised e) run ne = insert_other gid run _ b.goal_states ne

-- None of them touches the speed state.
module _ {R H : Type 0} (gid : String) (b : Bridge R H) where
  pub navigate_speed : (navigate gid b).0.speed ≡ b.speed
  unfolding navigate
  navigate_speed = ground arith

  pub claim_speed : (claim gid b).0.speed ≡ b.speed
  unfolding claim
  claim_speed = ground arith

  pub goal_refused_speed : (reason : String) → (goal_refused reason gid b).speed ≡ b.speed
  unfolding goal_refused
  goal_refused_speed reason = ground arith

  pub result_speed : ⦃fl : Float R⦄ → (o : Outcome Nav2Status) → (result o gid b).speed ≡ b.speed
  unfolding result
  result_speed (returned st) = refl
  result_speed (raised e) = refl

  pub cancel_speed : (cancel gid b).0.speed ≡ b.speed
  unfolding cancel
  cancel_speed = ground arith

  pub issue_cancel_speed : (o : Outcome (Unit {0})) → (issue_cancel o gid b).0.speed ≡ b.speed
  unfolding issue_cancel
  issue_cancel_speed (returned x) = refl
  issue_cancel_speed (raised e) = ground arith

  pub cancel_response_speed : (r : Outcome Bool) → (cancel_response r gid b).speed ≡ b.speed
  unfolding cancel_response
  cancel_response_speed r = ground arith

  pub feedback_speed : (f : Feedback R) → (feedback f gid b).speed ≡ b.speed
  unfolding feedback
  feedback_speed f = ground arith
