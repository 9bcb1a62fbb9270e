-- ===== src/Bridge/Service/Failure.antt =====
-- What a call that fails leaves of nav2_wrapper/atlas_bridge.py's state.
use service_navigation_rbnx.Base.{
  String, Bool, true, false, ◌≡◌, refl, sym, subst, ◌∙◌, Option, none, some, Option-cases, inl, inr,
  arith, eq_iff,
}
use service_navigation_rbnx.Float.{Float}
use service_navigation_rbnx.Dict.{lookup, lookup-insert}
use service_navigation_rbnx.Bridge.State.{RunState, GoalState, Bridge, resolve_run_id}
use service_navigation_rbnx.Bridge.Runs.{
  Outcome, raised, returned, CancelPlan, refuse, restore, wait, submit, submit_text, put_state,
  cancel, issue_cancel, navigate,
}
use service_navigation_rbnx.Bridge.Limit.{Request, Publish, change_speed}
use service_navigation_rbnx.Bridge.Change.{change_speed_rejected}
use service_navigation_rbnx.Bridge.Service.{
  Surround, Call, navigates, asks_status, cancels, adjusts_speed, sets_speed_limit,
  gets_speed_limit, finish_cancel, cancel_impl, navigate_impl, or_raises, tool,
}

module _ {R H : Type 0} where
  -- The state of a run.
  abbrev pub state_of : String → Bridge R H → Option RunState
  state_of run b = elim (lookup run b.goal_states) [ none ↦ none | some s ↦ some s.state ]

  -- Nothing that a caller asks for has happened: the runs and their states, the queue, the goal handles and
  -- the limits in force and of the session, with their owner, are as before.
  pub record Untouched (b b' : Bridge R H) : Type 0 where
    pub states : (run : String) → state_of run b' ≡ state_of run b
    pub handles : b'.goal_handles ≡ b.goal_handles
    pub queue : b'.nav_queue ≡ b.nav_queue
    pub last : b'.last_run_id ≡ b.last_run_id
    pub limit : b'.speed.percentage ≡ b.speed.percentage
    pub session_limit : b'.speed.session_percentage ≡ b.speed.session_percentage
    pub scope_kept : b'.speed.scope ≡ b.speed.scope
    pub owner : b'.speed.scope_run_id ≡ b.speed.scope_run_id
    pub guard : b'.speed.guard_limit ≡ b.speed.guard_limit

  abbrev untouched : (b : Bridge R H) → Untouched b b
  untouched b = record {
    states = λ run. refl;
    handles = refl;
    queue = refl;
    last = refl;
    limit = refl;
    session_limit = refl;
    scope_kept = refl;
    owner = refl;
    guard = refl;
  }

  state_of-put_state :
      (run gid : String) (s t : GoalState R) (b : Bridge R H)
      → lookup gid b.goal_states ≡ some s
      → t.state ≡ s.state
      → state_of run (put_state gid t b) ≡ state_of run b
  state_of-put_state run gid s t b found same =
      ground (arith, lookup-insert gid run t b.goal_states, eq_iff gid run)

  put_state-Untouched :
      (gid : String) (s t : GoalState R) (b : Bridge R H)
      → lookup gid b.goal_states ≡ some s
      → t.state ≡ s.state
      → Untouched b (put_state gid t b)
  put_state-Untouched gid s t b found same = record {
    states = λ run. state_of-put_state run gid s t b found same;
    handles = refl;
    queue = refl;
    last = refl;
    limit = refl;
    session_limit = refl;
    scope_kept = refl;
    owner = refl;
    guard = refl;
  }

  untouched_trans : {a b c : Bridge R H} → Untouched a b → Untouched b c → Untouched a c
  untouched_trans p q = record {
    states = λ run. q.states run ∙ p.states run;
    handles = q.handles ∙ p.handles;
    queue = q.queue ∙ p.queue;
    last = q.last ∙ p.last;
    limit = q.limit ∙ p.limit;
    session_limit = q.session_limit ∙ p.session_limit;
    scope_kept = q.scope_kept ∙ p.scope_kept;
    owner = q.owner ∙ p.owner;
    guard = q.guard ∙ p.guard;
  }

  issue_cancel-Untouched :
      (o : Outcome (Unit {0})) (gid : String) (b : Bridge R H)
      → Untouched b (issue_cancel o gid b).0
  unfolding issue_cancel
  issue_cancel-Untouched (returned _) gid b = untouched b
  issue_cancel-Untouched (raised error) gid b = elim (Option-cases (lookup gid b.goal_states)) [
    | inl e ↦ rw (e, issue_cancel) (untouched b)
    | inr (s, e) ↦ rw (e, issue_cancel) (put_state-Untouched gid s _ b e refl)
  ]

  refused :
      (gid detail : String) (b : Bridge R H)
      → (cancel gid b).1 ≡ refuse detail
      → (cancel gid b).0 ≡ b
  unfolding cancel
  refused gid detail b e = ground arith

  submitted :
      (gid : String) (handle : H) (s : GoalState R) (b : Bridge R H)
      → lookup gid b.goal_states ≡ some s
      → (cancel gid b).1 ≡ submit handle
      → (cancel gid b).0
        ≡ put_state gid (record s { detail = submit_text; cancel_requested = true }) b
  unfolding cancel
  submitted gid handle s b found e = ground arith

  submitted-known :
      (gid : String) (handle : H) (b : Bridge R H)
      → (cancel gid b).1 ≡ submit handle
      → lookup gid b.goal_states ≡ none
      → ⊥
  unfolding cancel
  submitted-known gid handle b e unknown = ground arith

  submitted-Untouched :
      (gid : String) (handle : H) (b : Bridge R H)
      → (cancel gid b).1 ≡ submit handle
      → Untouched b (cancel gid b).0
  submitted-Untouched gid handle b e = elim (Option-cases (lookup gid b.goal_states)) [
    | inl unknown ↦ elim (submitted-known gid handle b e unknown) [ ]
    | inr (s, found) ↦
        subst (Untouched b) (sym (submitted gid handle s b found e))
          (put_state-Untouched gid s _ b found refl)
  ]

  finish-Untouched :
      (s : Surround) (gid : String) (plan : CancelPlan H) (b : Bridge R H)
      → (cancel gid b).1 ≡ plan
      → (finish_cancel s gid plan (cancel gid b).0).1.accepted ≡ false
      → Untouched b (finish_cancel s gid plan (cancel gid b).0).0
  unfolding finish_cancel
  finish-Untouched s gid (refuse detail) b e failed =
      subst (Untouched b) (sym (refused gid detail b e)) (untouched b)
  finish-Untouched s gid (restore detail) b e failed = cc
  finish-Untouched s gid (wait detail) b e failed = cc
  finish-Untouched s gid (submit handle) b e failed =
      untouched_trans (submitted-Untouched gid handle b e)
        (issue_cancel-Untouched s.cancel_request gid (cancel gid b).0)

  navigate_refused :
      (run_id : String) (b : Bridge R H)
      → (navigate run_id b).1.accepted ≡ false
      → (navigate run_id b).0 ≡ b
  unfolding navigate
  navigate_refused run_id b e = ground arith

raised_flag :
    {A : Type 0} (flag : Bool) (detail error : String) (reply : A)
    → or_raises flag detail reply ≡ raised error
    → flag ≡ false
unfolding or_raises
raised_flag flag detail error reply e = ground arith

module _ {R H : Type 0} ⦃fl : Float R⦄ where
  change-Untouched :
      (channels : Bool) (outcome : Publish) (request : Request R) (run : String) (persist : Bool)
      (b : Bridge R H)
      → (change_speed channels outcome request run persist b).1.accepted ≡ false
      → Untouched b (change_speed channels outcome request run persist b).0
  change-Untouched channels outcome request run persist b e =
      subst (Untouched b) (sym (change_speed_rejected channels outcome request run persist b e))
        (record {
          states = λ run. refl;
          handles = refl;
          queue = refl;
          last = refl;
          limit = refl;
          session_limit = refl;
          scope_kept = refl;
          owner = refl;
          guard = refl;
        })

  pub tool-Untouched :
      (s : Surround) (call : Call R) (b : Bridge R H) (error : String)
      → (tool s call b).1 ≡ raised error
      → Untouched b (tool s call b).0
  unfolding tool navigate_impl cancel_impl
  tool-Untouched s (navigates goal) b error e =
      let no = raised_flag (navigate s.new_run_id b).1.accepted _ error _ e in
      rw no (subst (Untouched b) (sym (navigate_refused s.new_run_id b no)) (untouched b))
  tool-Untouched s (asks_status run_id) b error e = untouched b
  tool-Untouched s (cancels run_id) b error e =
      let gid = resolve_run_id run_id b in
      finish-Untouched s gid (cancel gid b).1 b refl
        (raised_flag (finish_cancel s gid (cancel gid b).1 (cancel gid b).0).1.accepted _ error _ e)
  tool-Untouched s (adjusts_speed direction run_id persist) b error e =
      change-Untouched s.channels s.changing _ run_id persist b (raised_flag _ _ error _ e)
  tool-Untouched s (sets_speed_limit percentage run_id persist) b error e =
      change-Untouched s.channels s.changing _ run_id persist b (raised_flag _ _ error _ e)
  tool-Untouched s gets_speed_limit b error e = untouched b
