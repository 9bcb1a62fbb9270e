-- ===== src/Bridge/Service/Steps.antt =====
-- What nav2_wrapper/atlas_bridge.py serves, as steps of the threads: a handler that is run as a whole takes
-- the critical sections of Bridge/World.antt one after another.
use service_navigation_rbnx.Base.{
  String, Bool, true, false, ◌≡◌, ◌≢◌, refl, Option, none, some, is_some, [], arith, eq_refl, subst,
  ◌∙◌, Bool-cases, inl, inr,
}
use service_navigation_rbnx.Float.{Float}
use service_navigation_rbnx.Dict.{lookup, lookup-insert}
use service_navigation_rbnx.Speed.Decide.{SpeedDecision}
use service_navigation_rbnx.Bridge.State.{Bridge, resolve_run_id}
use service_navigation_rbnx.Bridge.Runs.{
  Goal, payload_of, CancelPlan, refuse, restore, wait, submit, Outcome, raised, returned, navigate,
  enqueue, cancel,
}
use service_navigation_rbnx.Bridge.Limit.{Request, relative, explicit, prepare, change_speed}
use service_navigation_rbnx.Bridge.World.{Stage, World, Reach, here, next, IsStart, submitting}
use service_navigation_rbnx.Bridge.World
use service_navigation_rbnx.Bridge.Tracked.{Fits}
use service_navigation_rbnx.Bridge.Terminal.{TrackedIn}
use service_navigation_rbnx.Bridge.Interleaving.{Reach-Safe, start-TrackedIn}
use service_navigation_rbnx.Bridge.Service.{
  Surround, Call, navigates, asks_status, cancels, adjusts_speed, sets_speed_limit,
  gets_speed_limit, finish_cancel, cancel_impl, navigate_impl, serve, tool,
}
use service_navigation_rbnx.Bridge.Service.Handles.{HandlesIn, held_run_was_accepted}

-- The threads can come from a world to one with the given bridge, no mutation of the limit under way.
abbrev pub Leads : {R H : Type 0} ⦃fl : Float R⦄ → World R H → Bridge R H → Type 0
Leads {R} {H} w b = (v : World R H) × Reach w v × (v.bridge ≡ b) × (v.committing ≡ none)

-- A run without an entry is at no stage.
fresh : (R : Type 0) (o : Option Stage) → Fits {R = R} o none → o ≡ none
fresh R none f = refl
fresh R (some st) f = elim f [ ]

module _ {R H : Type 0} where
  cancel_submits :
      (gid : String) (b : Bridge R H) (h : H)
      → (cancel gid b).1 ≡ submit h
      → is_some (lookup gid b.goal_handles) ≡ true
  unfolding cancel
  cancel_submits gid b h e = ground arith

module _ {R H : Type 0} ⦃fl : Float R⦄ (s : Surround) where
  cancel-Leads :
      (gid : String) (w : World R H) (plan : CancelPlan H)
      → (cancel gid w.bridge).1 ≡ plan
      → HandlesIn w
      → w.committing ≡ none
      → Leads w (finish_cancel s gid plan (cancel gid w.bridge).0).0
  unfolding finish_cancel
  cancel-Leads gid w (refuse detail) e a free = (_, next here (World.cancels gid), refl, free)
  cancel-Leads gid w (wait detail) e a free = (_, next here (World.cancels gid), refl, free)
  cancel-Leads gid w (restore detail) e a free = (
    _,
    next (next here (World.cancels gid))
        (World.restores_speed gid [] w.restores s.restoring (rw e refl) free),
    refl,
    free,
  )
  cancel-Leads gid w (submit h) e a free = (
    _,
    next (next here (World.cancels gid))
        (World.issues gid s.cancel_request (a gid (cancel_submits gid w.bridge h e))),
    refl,
    free,
  )

  change-Leads :
      (request : Request R) (run_id : String) (persist : Bool) (w : World R H)
      (o : Outcome (String × SpeedDecision R))
      → prepare s.channels request run_id persist w.bridge ≡ o
      → w.committing ≡ none
      → Leads w (change_speed s.channels s.changing request run_id persist w.bridge).0
  unfolding change_speed
  change-Leads request run_id persist w (raised e) at free =
      (w, here, rw (at, change_speed) refl, free)
  change-Leads request run_id persist w (returned (owner, d)) at free = (
    _,
    next (next here (World.prepares s.channels request run_id owner persist d free at))
        (World.commits s.channels s.changing d owner persist refl),
    rw (at, change_speed) refl,
    refl,
  )

  ready_navigates :
      (goal : Goal R) (b : Bridge R H)
      → b.ros_ready ≡ true
      → enqueue s.new_run_id (payload_of goal) (navigate s.new_run_id b).0
        ≡ (navigate_impl s goal b).0
  unfolding navigate_impl navigate
  ready_navigates goal b ready = rw ready refl

  unready_stays :
      (goal : Goal R) (b : Bridge R H) → b.ros_ready ≡ false → b ≡ (navigate_impl s goal b).0
  unfolding navigate_impl navigate
  unready_stays goal b down = rw down refl

  navigate-Leads :
      (goal : Goal R) (w : World R H)
      → s.new_run_id ≢ ""
      → lookup s.new_run_id w.bridge.goal_states ≡ none
      → TrackedIn w
      → w.committing ≡ none
      → Leads w (navigate_impl s goal w.bridge).0
  navigate-Leads goal w named new t free = elim (Bool-cases w.bridge.ros_ready) [
    | inl ready ↦
        let unseen : lookup s.new_run_id w.stages ≡ none =
          fresh R _ (subst (Fits (lookup s.new_run_id w.stages)) new (t.fits s.new_run_id)) in
        (
          _,
          next (next here (World.navigates s.new_run_id named new unseen ready)) (
              World.enqueues s.new_run_id (payload_of goal)
                (rw lookup-insert (rw (eq_refl s.new_run_id) refl))),
          ready_navigates goal w.bridge ready,
          free,
        )
    | inr down ↦ (w, here, unready_stays goal w.bridge down, free)
  ]

module _ {R H : Type 0} ⦃fl : Float R⦄ (s : Surround) where
  -- The tool and the servicer of a request do the same to the bridge.
  tool-serve : (call : Call R) (b : Bridge R H) → (serve s call b).0 ≡ (tool s call b).0
  unfolding serve tool
  tool-serve (navigates goal) b = refl
  tool-serve (asks_status run_id) b = refl
  tool-serve (cancels run_id) b = refl
  tool-serve (adjusts_speed direction run_id persist) b = refl
  tool-serve (sets_speed_limit percentage run_id persist) b = refl
  tool-serve gets_speed_limit b = refl

  serve-Leads :
      {w₀ w : World R H}
      → IsStart w₀
      → w₀.bridge.goal_handles ≡ []
      → Reach w₀ w
      → w.committing ≡ none
      → s.new_run_id ≢ ""
      → lookup s.new_run_id w.bridge.goal_states ≡ none
      → (call : Call R) → Leads w (serve s call w.bridge).0
  unfolding serve cancel_impl
  serve-Leads {w = w} start empty r free named new (navigates goal) =
      navigate-Leads s goal w named new (Reach-Safe (start-TrackedIn start) r).0 free
  serve-Leads {w = w} start empty r free named new (asks_status run_id) = (w, here, refl, free)
  serve-Leads {w = w} start empty r free named new (cancels run_id) =
      cancel-Leads s (resolve_run_id run_id w.bridge) w _ refl (held_run_was_accepted start empty r)
        free
  serve-Leads {w = w} start empty r free named new (adjusts_speed direction run_id persist) =
      change-Leads s (relative direction) run_id persist w _ refl free
  serve-Leads {w = w} start empty r free named new (sets_speed_limit percentage run_id persist) =
      change-Leads s (explicit percentage) run_id persist w _ refl free
  serve-Leads {w = w} start empty r free named new gets_speed_limit = (w, here, refl, free)

pub serve-Reach :
    {R H : Type 0} ⦃fl : Float R⦄ {w₀ w : World R H}
    → IsStart w₀
    → w₀.bridge.goal_handles ≡ []
    → Reach w₀ w
    → w.committing ≡ none
    → (s : Surround) → s.new_run_id ≢ ""
    → lookup s.new_run_id w.bridge.goal_states ≡ none
    → (call : Call R)
    → (v : World R H) × Reach w v
      × (v.bridge ≡ (serve s call w.bridge).0)
      × (v.bridge ≡ (tool s call w.bridge).0)
      × (v.committing ≡ none)
serve-Reach {w} start empty r free s named new call =
    let (v, steps, same, ends) = serve-Leads s start empty r free named new call in
    (v, steps, same, same ∙ tool-serve s call w.bridge, ends)
