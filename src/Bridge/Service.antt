-- ===== src/Bridge/Service.antt =====
-- What nav2_wrapper/atlas_bridge.py serves: the gRPC servicers and the MCP tools over the same handlers. A
-- handler is run as a whole here, with nothing between its critical sections.
pub mod Failure
pub mod Journey
pub mod Handles
pub mod Steps
mod Tests
use service_navigation_rbnx.Base.{String, Bool, true, false, if◌then◌else◌}
use service_navigation_rbnx.Float.{Float}
use service_navigation_rbnx.Bridge.State.{Bridge, resolve_run_id}
use service_navigation_rbnx.Bridge.Runs.{
  Goal, NavigateResponse, StatusResponse, CancelResponse, payload_of, CancelPlan, refuse, restore,
  wait, submit, Outcome, raised, returned, navigate, enqueue, status, cancel, issue_cancel,
}
use service_navigation_rbnx.Bridge.Limit.{
  Publish, Request, relative, explicit, SpeedResponse, LimitStatus, restore_speed_after_run,
  get_speed_limit, change_speed,
}

-- What a call meets: the new `uuid4`, whether the request of a cancel raises, what publishing the session's
-- limit and a new limit bring, and `_speed_channels_available()`.
pub record Surround : Type 0 where
  pub new_run_id : String
  pub cancel_request : Outcome (Unit {0})
  pub restoring : Publish
  pub changing : Publish
  pub channels : Bool

-- The requests, each with the servicer or the tool that takes it.
pub data Call (R : Type 0) : Type 0 where
  navigates : Goal R → Call R
  asks_status : String → Call R
  cancels : String → Call R
  adjusts_speed : (direction run_id : String) (persist : Bool) → Call R
  sets_speed_limit : (percentage : R) (run_id : String) (persist : Bool) → Call R
  gets_speed_limit : Call R

pub data Response (R : Type 0) : Type 0 where
  navigated : NavigateResponse → Response R
  status_is : StatusResponse → Response R
  canceled : CancelResponse → Response R
  speed_changed : SpeedResponse R → Response R
  limit_is : LimitStatus R → Response R

module _ {R H : Type 0} where
  -- `_cancel_impl` after its critical section.
  unfoldable pub finish_cancel :
      Surround → String → CancelPlan H → Bridge R H → Bridge R H × CancelResponse
  finish_cancel s gid (refuse detail) b = (b, record { accepted = false; detail = detail })
  finish_cancel s gid (restore detail) b = (
    record b { speed = restore_speed_after_run s.restoring gid b.speed },
    record { accepted = true; detail = detail },
  )
  finish_cancel s gid (wait detail) b = (b, record { accepted = true; detail = detail })
  finish_cancel s gid (submit handle) b = issue_cancel s.cancel_request gid b

  -- `_cancel_impl`
  unfoldable pub cancel_impl : Surround → String → Bridge R H → Bridge R H × CancelResponse
  unfolding finish_cancel
  cancel_impl s run_id b =
      let gid = resolve_run_id run_id b in
      let (b', plan) = cancel gid b in finish_cancel s gid plan b'

-- `if not flag: raise RuntimeError(detail)`
unfoldable pub or_raises : {A : Type 0} → Bool → String → A → Outcome A
or_raises flag detail reply = if flag then returned reply else raised detail

module _ {R H : Type 0} ⦃fl : Float R⦄ where
  -- `_navigate_impl`
  unfoldable pub navigate_impl : Surround → Goal R → Bridge R H → Bridge R H × NavigateResponse
  navigate_impl s goal b =
      let (b', out) = navigate s.new_run_id b in
      (if out.accepted then enqueue s.new_run_id (payload_of goal) b' else b', out)

  -- The gRPC servicers.
  unfoldable pub serve : Surround → Call R → Bridge R H → Bridge R H × Response R
  unfolding navigate_impl cancel_impl
  serve s (navigates goal) b = let (b', out) = navigate_impl s goal b in (b', navigated out)
  serve s (asks_status run_id) b = (b, status_is (status run_id b))
  serve s (cancels run_id) b = let (b', out) = cancel_impl s run_id b in (b', canceled out)
  serve s (adjusts_speed direction run_id persist) b =
      let (b', out) = change_speed s.channels s.changing (relative direction) run_id persist b in
      (b', speed_changed out)
  serve s (sets_speed_limit percentage run_id persist) b =
      let (b', out) = change_speed s.channels s.changing (explicit percentage) run_id persist b in
      (b', speed_changed out)
  serve s gets_speed_limit b = (b, limit_is (get_speed_limit s.channels b))

  -- The MCP tools.
  unfoldable pub tool : Surround → Call R → Bridge R H → Bridge R H × Outcome (Response R)
  unfolding navigate_impl cancel_impl or_raises
  tool s (navigates goal) b =
      let (b', out) = navigate_impl s goal b in
      (b', or_raises out.accepted out.detail (navigated out))
  tool s (asks_status run_id) b =
      let out = status run_id b in (b, or_raises out.known out.detail (status_is out))
  tool s (cancels run_id) b =
      let (b', out) = cancel_impl s run_id b in
      (b', or_raises out.accepted out.detail (canceled out))
  tool s (adjusts_speed direction run_id persist) b =
      let (b', out) = change_speed s.channels s.changing (relative direction) run_id persist b in
      (b', or_raises out.accepted out.detail (speed_changed out))
  tool s (sets_speed_limit percentage run_id persist) b =
      let (b', out) = change_speed s.channels s.changing (explicit percentage) run_id persist b in
      (b', or_raises out.accepted out.detail (speed_changed out))
  tool s gets_speed_limit b =
      let out = get_speed_limit s.channels b in
      (b, or_raises out.available out.detail (limit_is out))
