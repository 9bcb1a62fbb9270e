-- ===== src/Bridge/Canceling.antt =====
-- `_cancel_impl` of nav2_wrapper/atlas_bridge.py against the dispatcher and the goal's response.
use service_navigation_rbnx.Base.{String, true, false, ◌≡◌, none, some, arith, eq_refl}
use service_navigation_rbnx.Dict.{lookup, lookup-insert}
use service_navigation_rbnx.Bridge.State.{pending, running, canceled, GoalState, Bridge}
use service_navigation_rbnx.Bridge.Runs.{
  claim, cancel, mark_sent, goal_accepted, goal_refused, cancel_requested, entry, restore,
  early_text,
}

module _ {R H : Type 0} where
  -- A cancel of a pending run without a goal handle leaves it canceled, and has the session's speed
  -- restored; when the dispatcher takes the run later, it drops it and changes nothing.
  cancel_in_queue :
      (run : String) (s : GoalState R) (b : Bridge R H)
      → lookup run b.goal_states ≡ some s
      → s.state ≡ pending
      → lookup run b.goal_handles ≡ none
      → let b' = (cancel run b).0 in
        ((cancel run b).1 ≡ restore early_text)
        × (lookup run b'.goal_states
            ≡ some (record s { state = canceled; detail = early_text; cancel_requested = true }))
        × (claim run b' ≡ (b', false))
  unfolding cancel claim
  cancel_in_queue run s b found waiting no_handle = ground (
    arith,
    lookup-insert run run
        (record s { state = canceled; detail = early_text; cancel_requested = true }) b.goal_states,
    eq_refl run,
  )

  requested :
      (run : String) (s : GoalState R) (b : Bridge R H)
      → lookup run b.goal_states ≡ some s
      → s.state ≡ running
      → cancel_requested run (cancel run b).0 ≡ true
  unfolding cancel cancel_requested
  requested run s b found is_running = ground (
    arith,
    lookup-insert run run
        (record s { detail = "cancel queued until goal acceptance"; cancel_requested = true })
        b.goal_states,
    lookup-insert run run
        (record s { detail = "submitting cancel to Nav2"; cancel_requested = true }) b.goal_states,
    eq_refl run,
  )

  mark_sent_keeps :
      (run : String) (b : Bridge R H)
      → cancel_requested run b ≡ true
      → cancel_requested run (mark_sent run b) ≡ true
  unfolding cancel_requested mark_sent
  mark_sent_keeps run b asked =
      let kept : GoalState R = record {
        state = running;
        detail = "goal sent; cancel queued until acceptance";
        cancel_requested = true;
        feedback = none;
      } in
      ground (arith, lookup-insert run run kept b.goal_states, eq_refl run)

  -- A cancel of a running run that comes before the goal is marked as sent is kept by the mark, and the
  -- goal's acceptance then forwards it to Nav2.
  pub cancel_before_sent :
      (run : String) (s : GoalState R) (b : Bridge R H) (handle : H)
      → lookup run b.goal_states ≡ some s
      → s.state ≡ running
      → (goal_accepted handle run (mark_sent run (cancel run b).0)).1 ≡ true
  unfolding goal_accepted
  cancel_before_sent run s b handle found is_running =
      mark_sent_keeps run (cancel run b).0 (requested run s b found is_running)

  pub cancel_before_answer :
      (run reason : String) (s : GoalState R) (b : Bridge R H) (handle : H)
      → lookup run b.goal_states ≡ some s
      → s.state ≡ running
      → let b' = (cancel run b).0 in
        ((goal_accepted handle run b').1 ≡ true)
        × (lookup run (goal_refused reason run b').goal_states
            ≡ some (entry canceled "canceled before acceptance"))
  unfolding goal_accepted goal_refused
  cancel_before_answer run reason s b handle found is_running =
      let asked = requested run s b found is_running in
      ground (
        arith,
        lookup-insert run run (entry canceled "canceled before acceptance")
            (cancel run b).0.goal_states,
        eq_refl run,
      )
