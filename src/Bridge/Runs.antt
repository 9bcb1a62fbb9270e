-- ===== src/Bridge/Runs.antt =====
-- The life of a navigation run: each function is one critical section of the handler that it names.
use Prim.Native.String.{◌++◌}
use mathlib.Core.List.{◌++◌ as append}
use service_navigation_rbnx.Base.{
  String, Bool, true, false, ◌&&◌, Option, none, some, List, [], ◌∷◌, if◌then◌else◌,
}
use service_navigation_rbnx.Int.{pos}
use service_navigation_rbnx.Float.{Float, ◌⊗◌, whole}
use service_navigation_rbnx.Text.{is_empty}
use service_navigation_rbnx.Dict.{lookup, insert, erase}
use service_navigation_rbnx.Diagnostics.{Feedback, format_result_detail, summarize_blockage}
use service_navigation_rbnx.Bridge.State.{
  RunState, pending, running, failed, canceled, lower_name, is_terminal, GoalState, Payload, Bridge,
  Nav2Status, goal_status_name, canonical_state, resolve_run_id,
}

-- `_goal_states[gid] = entry`
abbrev pub put_state : {R H : Type 0} → String → GoalState R → Bridge R H → Bridge R H
put_state gid entry b = record b { goal_states = insert gid entry b.goal_states }

abbrev pub is_canceled : RunState → Bool
is_canceled canceled = true
is_canceled _ = false

-- The details that a cancel leaves.
abbrev pub early_text : String
early_text = "canceled before dispatch"

abbrev pub queued_text : String
queued_text = "cancel queued until goal acceptance"

abbrev pub submit_text : String
submit_text = "submitting cancel to Nav2"

-- A new entry without "cancel_requested" or "feedback".
abbrev pub entry : {R : Type 0} → RunState → String → GoalState R
entry state detail = record {
  state = state;
  detail = detail;
  cancel_requested = false;
  feedback = none;
}

-- `bool(_goal_states.get(gid, {}).get("cancel_requested"))`
unfoldable pub cancel_requested : {R H : Type 0} → String → Bridge R H → Bool
cancel_requested gid b = elim (lookup gid b.goal_states) [
  | none ↦ false
  | some s ↦ s.cancel_requested
]

-- What a navigate request asks for.
pub record Goal (R : Type 0) : Type 0 where
  pub frame_id : String
  pub x : R
  pub y : R
  pub z : R
  pub w : R

pub record NavigateResponse : Type 0 where
  pub accepted : Bool
  pub run_id : String
  pub detail : String

pub record StatusResponse : Type 0 where
  pub known : Bool
  pub state : RunState
  pub detail : String

pub record CancelResponse : Type 0 where
  pub accepted : Bool
  pub detail : String

-- `_quat_to_yaw` and the queue entry's payload.
unfoldable pub payload_of : {R : Type 0} ⦃fl : Float R⦄ → Goal R → Payload R
payload_of ⦃fl⦄ g = record {
  frame_id = if is_empty g.frame_id then "map" else g.frame_id;
  x = g.x;
  y = g.y;
  yaw = whole 2 ⊗ fl.atan2 g.z g.w;
}

-- How `_cancel_impl` leaves its critical section: with a refusal, with a run that was canceled before
-- dispatch and whose speed is to be restored, with a cancel that waits for the goal's acceptance, or
-- with a handle to cancel.
pub data CancelPlan (H : Type 0) : Type 0 where
  refuse : String → CancelPlan H
  restore : String → CancelPlan H
  wait : String → CancelPlan H
  submit : H → CancelPlan H

-- What a future brings: an exception's text or a value.
pub data Outcome (A : Type 0) : Type 0 where
  raised : String → Outcome A
  returned : A → Outcome A

-- The flag and the text that a cancel reply leaves.
unfoldable pub cancel_reply : Outcome Bool → Bool × String
cancel_reply (returned true) = (true, "cancel accepted by Nav2")
cancel_reply (returned false) = (false, "cancel rejected by Nav2; goal remains active")
cancel_reply (raised error) = (false, "cancel response failed; goal may remain active: " ++ error)

module _ {R H : Type 0} where
  -- `_navigate_impl`; `run_id` is the new `uuid4`. The queue entry follows by `enqueue`.
  unfoldable pub navigate : String → Bridge R H → Bridge R H × NavigateResponse
  navigate run_id b =
      if b.ros_ready
      then (
        record b {
          last_run_id = run_id;
          goal_states = insert run_id (entry pending "queued") b.goal_states;
        },
        record { accepted = true; run_id = run_id; detail = "queued" },
      )
      else (b, record { accepted = false; run_id = ""; detail = "ROS2 not initialized" })

  -- `_nav_queue.put((run_id, …))`
  unfoldable pub enqueue : String → Payload R → Bridge R H → Bridge R H
  enqueue run_id payload b = record b { nav_queue = append b.nav_queue ((run_id, payload) ∷ []) }

  -- `_status_impl`
  unfoldable pub status : String → Bridge R H → StatusResponse
  status run_id b = elim (lookup (resolve_run_id run_id b) b.goal_states) [
    | none ↦ record { known = false; state = failed; detail = "unknown run_id" }
    | some s ↦ record { known = true; state = s.state; detail = s.detail }
  ]

  -- `_cancel_impl` on a run that is not terminal and has no handle.
  cancel_early : String → GoalState R → Bridge R H → Bridge R H × CancelPlan H
  cancel_early gid s b = elim s.state [
    | pending ↦ (
      put_state gid (record s { state = canceled; detail = early_text; cancel_requested = true }) b,
      restore early_text,
    )
    | _ ↦ (
      put_state gid (record s { detail = queued_text; cancel_requested = true }) b,
      wait queued_text,
    )
  ]

  cancel_known : String → GoalState R → Bridge R H → Bridge R H × CancelPlan H
  cancel_known gid s b =
      if is_terminal s.state
      then (b, refuse ("run is already " ++ lower_name s.state))
      else elim (lookup gid b.goal_handles) [
        | none ↦ cancel_early gid s b
        | some h ↦
            (put_state gid (record s { detail = submit_text; cancel_requested = true }) b, submit h)
      ]

  -- The critical section of `_cancel_impl`, on the resolved run.
  unfoldable pub cancel : String → Bridge R H → Bridge R H × CancelPlan H
  unfolding cancel_known cancel_early
  cancel gid b = elim (lookup gid b.goal_states) [
    | none ↦ (b, refuse "unknown run_id")
    | some s ↦ cancel_known gid s b
  ]

  -- `_issue_cancel`: the request may raise.
  unfoldable pub issue_cancel :
      Outcome (Unit {0}) → String → Bridge R H → Bridge R H × CancelResponse
  issue_cancel (returned _) gid b = (b, record { accepted = true; detail = "cancel requested" })
  issue_cancel (raised error) gid b = (
    elim (lookup gid b.goal_states) [
      | none ↦ b
      | some s ↦
          put_state gid
            (record s {
              detail = "cancel request failed; goal may remain active: " ++ error;
              cancel_requested = false;
            })
            b
    ],
    record { accepted = false; detail = "cancel failed: " ++ error },
  )

  -- `_cancel_response_cb`; the reply is whether any goal is being canceled.
  unfoldable pub cancel_response : Outcome Bool → String → Bridge R H → Bridge R H
  unfolding cancel_reply
  cancel_response reply gid b = elim (lookup gid b.goal_states) [
    | none ↦ b
    | some s ↦ elim s.state [
      | running ↦
          put_state gid
            (record s {
              detail = (cancel_reply reply).1;
              cancel_requested = (cancel_reply reply).0;
            })
            b
      | _ ↦ b
    ]
  ]

  -- `_feedback_cb`
  unfoldable pub feedback : Feedback R → String → Bridge R H → Bridge R H
  feedback summary gid b = elim (lookup gid b.goal_states) [
    | none ↦ b
    | some s ↦ put_state gid (record s { feedback = some summary }) b
  ]

  -- The first critical section of `_dispatch_goal`, with whether it goes on.
  unfoldable pub claim : String → Bridge R H → Bridge R H × Bool
  claim gid b = elim (lookup gid b.goal_states) [
    | none ↦ (b, false)
    | some s ↦ elim (is_canceled s.state && s.cancel_requested) [
      | true ↦ (b, false)
      | false ↦ (put_state gid (record s { state = running; detail = "dispatching goal" }) b, true)
    ]
  ]

  -- The action server is not ready.
  unfoldable pub not_ready : String → Bridge R H → Bridge R H
  not_ready gid b = put_state gid (entry failed "nav action server not ready") b

  -- `_nav_diagnostics.clear()`, before the goal is sent
  unfoldable pub clear_diagnostics : Bridge R H → Bridge R H
  clear_diagnostics b = record b { diagnostics = [] }

  -- The last critical section of `_dispatch_goal`, after the goal is sent.
  unfoldable pub mark_sent : String → Bridge R H → Bridge R H
  mark_sent gid b =
      let canceling = cancel_requested gid b in
      put_state gid
        (record {
          state = running;
          detail = if canceling then "goal sent; cancel queued until acceptance" else "goal sent";
          cancel_requested = canceling;
          feedback = none;
        })
        b

  -- `_goal_response_cb` where the future raised or the goal was rejected; `reason` is `str(e)` or
  -- "goal rejected".
  unfoldable pub goal_refused : String → String → Bridge R H → Bridge R H
  goal_refused reason gid b =
      if cancel_requested gid b
      then put_state gid (entry canceled "canceled before acceptance") b
      else put_state gid (entry failed reason) b

  -- `_goal_response_cb` where the goal was accepted, with whether a cancel is to be forwarded.
  unfoldable pub goal_accepted : H → String → Bridge R H → Bridge R H × Bool
  goal_accepted handle gid b =
      let canceling = cancel_requested gid b in
      (
        put_state gid
            (record {
              state = running;
              detail =
                  if canceling then "goal accepted; forwarding queued cancel" else "goal accepted";
              cancel_requested = canceling;
              feedback = none;
            })
            (record b { goal_handles = insert gid handle b.goal_handles }),
        canceling,
      )

module _ {R H : Type 0} ⦃fl : Float R⦄ where
  -- The diagnostics of a run that failed: Nav2's lines and the blockage report, if there is one.
  unfoldable pub failure_diagnostics : Bridge R H → List String
  failure_diagnostics b = elim b.costmap [
    | none ↦ b.diagnostics
    | some (cells, width, height, resolution) ↦
        let blockage =
          summarize_blockage cells width height resolution (pos 99) (fl.decimal 15 1) in
        if is_empty blockage then b.diagnostics else append b.diagnostics (blockage ∷ [])
  ]

  previous_feedback : String → Bridge R H → Option (Feedback R)
  previous_feedback gid b = elim (lookup gid b.goal_states) [ none ↦ none | some s ↦ s.feedback ]

  -- `_result_cb`
  unfoldable pub result : Outcome Nav2Status → String → Bridge R H → Bridge R H
  unfolding previous_feedback failure_diagnostics
  result (returned st) gid b =
      let state = canonical_state st in
      let lines : List String = elim state [ failed ↦ failure_diagnostics b | _ ↦ [] ] in
      let detail = format_result_detail (goal_status_name st) (previous_feedback gid b) lines in
      put_state gid (entry state detail) (record b { goal_handles = erase gid b.goal_handles })
  result (raised error) gid b =
      put_state gid (entry failed error) (record b { goal_handles = erase gid b.goal_handles })
