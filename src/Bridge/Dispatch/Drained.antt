-- ===== src/Bridge/Dispatch/Drained.antt =====
-- What the dispatcher of nav2_wrapper/atlas_bridge.py makes of its queue.

use service_navigation_rbnx.Base.{
  String, Bool, true, false, not, ◌&&◌, ◌||◌, ◌≡◌, refl, ap, ◌∙◌, Option, none, some, List, [], ◌∷◌,
  ◌++◌, ◌=?◌, if◌then◌else◌, arith, eq_iff, Option-cases, Bool-cases, inl, inr,
}
use service_navigation_rbnx.Float.{Float}
use service_navigation_rbnx.Dict.{lookup}
use service_navigation_rbnx.Bridge.State.{RunState, running, GoalState, Bridge, Payload}
use service_navigation_rbnx.Bridge.Runs.{is_canceled, clear_diagnostics, mark_sent}
use service_navigation_rbnx.Bridge.Limit.{Publish}
use service_navigation_rbnx.Bridge.Service.Failure.{state_of}
use service_navigation_rbnx.Bridge.Dispatch.Sent.{
  drops, claimed_lem, dropped_lem, sent_bridge, sent-states, sent-drops,
}
use service_navigation_rbnx.Bridge.Dispatch.{
  Pose, make_pose, send_claimed, dispatch_goal, dispatch_all, drain,
}

abbrev pub queued : {R : Type 0} → String → List (String × Payload R) → Bool
queued g [] = false
queued g ((gid, payload) ∷ entries) = (gid =? g) || queued g entries

module _ {R H : Type 0} ⦃fl : Float R⦄ where
  -- What a dispatch leaves for the entries after it.
  record Leaves (gid : String) (dropped : Bool) (b b' : Bridge R H) : Type 0 where
    states :
        (g : String)
        → state_of g b' ≡ (if (gid =? g) && not dropped then some running else state_of g b)
    drops_kept : (g : String) → drops g b' ≡ drops g b
    still_ready : b'.action_ready ≡ true
    queue : b'.nav_queue ≡ b.nav_queue

  known :
      (gid : String) (b : Bridge R H)
      → drops gid b ≡ false
      → (s : GoalState R) × (lookup gid b.goal_states ≡ some s)
  known gid b wanted = elim (Option-cases (lookup gid b.goal_states)) [
    | inl unknown ↦ elim (absurd unknown) [ ]
    | inr found ↦ found
  ]
    where
      absurd : lookup gid b.goal_states ≡ none → ⊥
      absurd unknown = ground arith

  sent_bridge_rest :
      (gid : String) (s : GoalState R) (b : Bridge R H)
      → ((sent_bridge gid s b).action_ready ≡ b.action_ready)
        × ((sent_bridge gid s b).nav_queue ≡ b.nav_queue)
  unfolding sent_bridge mark_sent clear_diagnostics
  sent_bridge_rest gid s b = (refl, refl)

  sent_bridge-Leaves :
      (gid : String) (s : GoalState R) (b : Bridge R H)
      → b.action_ready ≡ true
      → drops gid b ≡ false
      → Leaves gid false b (sent_bridge gid s b)
  sent_bridge-Leaves gid s b is_ready wanted = record {
    states = λ g. sent-states gid g s b ∙ by_test (gid =? g) (some running) (state_of g b);
    drops_kept = λ g. sent-drops gid g s b wanted;
    still_ready = (sent_bridge_rest gid s b).0 ∙ is_ready;
    queue = (sent_bridge_rest gid s b).1;
  }
    where
      by_test :
          (c : Bool) (x y : Option RunState) → (if c then x else y) ≡ (if c && true then x else y)
      by_test true x y = refl
      by_test false x y = refl

  unchanged-Leaves : (gid : String) (b : Bridge R H) → b.action_ready ≡ true → Leaves gid true b b
  unchanged-Leaves gid b is_ready = record {
    states = λ g. by_test (gid =? g) (some running) (state_of g b);
    drops_kept = λ g. refl;
    still_ready = is_ready;
    queue = refl;
  }
    where
      by_test : (c : Bool) (x y : Option RunState) → y ≡ (if c && false then x else y)
      by_test true x y = refl
      by_test false x y = refl

  -- The goals of the entries whose run is neither unknown nor canceled.
  abbrev pub wanted_goals : Bridge R H → List (String × Payload R) → List (Pose R)
  wanted_goals b [] = []
  wanted_goals b ((gid, payload) ∷ entries) =
      (if drops gid b then [] else make_pose payload ∷ []) ++ wanted_goals b entries

  wanted_same :
      (entries : List (String × Payload R)) (b b' : Bridge R H)
      → ((g : String) → drops g b' ≡ drops g b)
      → wanted_goals b' entries ≡ wanted_goals b entries
  wanted_same [] b b' same = refl
  wanted_same ((gid, payload) ∷ entries) b b' same =
      rw (same gid, wanted_same entries b b' same) refl

module _ {R H : Type 0} ⦃fl : Float R⦄ (restoring : Publish) where
  dispatch_wanted :
      (gid : String) (payload : Payload R) (s : GoalState R) (b : Bridge R H)
      → b.action_ready ≡ true
      → lookup gid b.goal_states ≡ some s
      → drops gid b ≡ false
      → dispatch_goal restoring (gid, payload) b ≡ (sent_bridge gid s b, make_pose payload ∷ [])
  unfolding dispatch_goal send_claimed sent_bridge
  dispatch_wanted gid payload s b is_ready found wanted =
      let open_run : (is_canceled s.state && s.cancel_requested) ≡ false = ground arith in
      rw (claimed_lem gid s b found open_run, is_ready) refl

  dispatch_dropped :
      (gid : String) (payload : Payload R) (b : Bridge R H)
      → drops gid b ≡ true
      → dispatch_goal restoring (gid, payload) b ≡ (b, [])
  unfolding dispatch_goal
  dispatch_dropped gid payload b unwanted = rw (dropped_lem gid b unwanted) refl

  dispatch-Leaves :
      (gid : String) (payload : Payload R) (b : Bridge R H)
      → b.action_ready ≡ true
      → let (b', sent) = dispatch_goal restoring (gid, payload) b in
        Leaves gid (drops gid b) b b'
        × (sent ≡ (if drops gid b then [] else make_pose payload ∷ []))
  dispatch-Leaves gid payload b is_ready = elim (Bool-cases (drops gid b)) [
    | inl unwanted ↦
        rw (dispatch_dropped gid payload b unwanted, unwanted)
          (unchanged-Leaves gid b is_ready, refl)
    | inr wanted ↦
        let (s, found) = known gid b wanted in
        rw (dispatch_wanted gid payload s b is_ready found wanted, wanted)
          (sent_bridge-Leaves gid s b is_ready wanted, refl)
  ]

  dispatch_all_lem :
      (entries : List (String × Payload R)) (b : Bridge R H)
      → b.action_ready ≡ true
      → let (b', sent) = dispatch_all restoring entries b in
        (sent ≡ wanted_goals b entries)
        × (b'.nav_queue ≡ b.nav_queue)
        × ((g : String)
            → state_of g b'
              ≡ (if queued g entries && not (drops g b) then some running else state_of g b))
  unfolding dispatch_all
  dispatch_all_lem [] b is_ready = (refl, refl, λ g. refl)
  dispatch_all_lem ((gid, payload) ∷ entries) b is_ready =
      let b₁ : Bridge R H = (dispatch_goal restoring (gid, payload) b).0 in
      let (l, sent) = dispatch-Leaves gid payload b is_ready in
      let (later, queue, states) = dispatch_all_lem entries b₁ l.still_ready in
      (
        ap (λ xs. xs ++ (dispatch_all restoring entries b₁).1) sent
            ∙ ap (λ xs. (if drops gid b then [] else make_pose payload ∷ []) ++ xs)
                (later ∙ wanted_same entries b b₁ l.drops_kept),
        queue ∙ l.queue,
        λ g. states g ∙ ground (arith, l.states g, l.drops_kept g, eq_iff gid g),
      )

  -- Where the action server is ready, a round of the dispatcher empties the queue and sends the goals of
  -- exactly the entries whose run is known and was not canceled before, in their order, as the poses that
  -- were asked for; those runs are running then, and every other run is as it was.
  pub drain_sends :
      (b : Bridge R H) (g : String)
      → b.action_ready ≡ true
      → let (b', sent) = drain restoring b in
        (sent ≡ wanted_goals b b.nav_queue)
        × (b'.nav_queue ≡ [])
        × (state_of g b'
            ≡ (if queued g b.nav_queue && not (drops g b) then some running else state_of g b))
  unfolding drain
  drain_sends b g is_ready =
      let taken : Bridge R H = record b { nav_queue = [] } in
      let (sent, queue, states) = dispatch_all_lem b.nav_queue taken is_ready in
      (sent ∙ wanted_same b.nav_queue b taken (λ h. refl), queue, states g)
