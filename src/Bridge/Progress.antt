-- ===== src/Bridge/Progress.antt =====
-- How a run of nav2_wrapper/atlas_bridge.py comes to its end.
use service_navigation_rbnx.Base.{
  String, Bool, true, false, ◌≡◌, refl, ◌≢◌, inl, inr, Option, none, some, [], ◌∷◌, eq_iff,
  Bool-cases, ◌=?◌, subst, ◌∙◌, eq_refl,
}
use service_navigation_rbnx.Float.{Float, whole}
use service_navigation_rbnx.Dict.{Dict, lookup, insert, lookup-insert}
use service_navigation_rbnx.Bridge.State.{
  RunState, GoalState, Payload, Nav2Status, is_terminal, canonical_state,
}
use service_navigation_rbnx.Bridge.Runs.{returned, claim, not_ready, result}
use service_navigation_rbnx.Bridge.World.{
  Stage, submitting, queued, claimed, sent, awaiting, executing, dropped, done, World, Step, Reach,
  here, next, IsStart,
}
use service_navigation_rbnx.Bridge.World
use service_navigation_rbnx.Bridge.Tracked.{Queue, Fits}
use service_navigation_rbnx.Bridge.Effects.{claim_goes_on}
use service_navigation_rbnx.Bridge.Terminal.{TrackedIn}
use service_navigation_rbnx.Bridge.Interleaving.{step-Safe, start-TrackedIn, Reach-Safe}
use service_navigation_rbnx.Bridge.Life.{phase, phase_of}
use service_navigation_rbnx.Bridge.Waiting.{
  InQueue, Awaited, step-Awaited, Reach-Awaited, start-Awaited,
}

abbrev pub has_ended : Option RunState → Bool
has_ended none = false
has_ended (some s) = is_terminal s

module _ {V : Type 0} where
  lookup-insert_self : (gid : String) (v : V) (d : Dict V) → lookup gid (insert gid v d) ≡ some v
  lookup-insert_self gid v d = rw (lookup-insert gid gid v d, eq_refl gid) refl

  lookup-insert_other :
      (gid run : String) (v : V) (d : Dict V)
      → (gid =? run) ≡ false
      → lookup run (insert gid v d) ≡ lookup run d
  lookup-insert_other gid run v d differs = rw (lookup-insert gid run v d, differs) refl

module _ {R H : Type 0} ⦃fl : Float R⦄ where
  -- Some steps of the threads bring the run to its end.
  abbrev pub CanEnd : World R H → String → Type 0
  CanEnd w run = (v : World R H) × Reach w v × (has_ended (phase v.bridge.goal_states run) ≡ true)

  Reach-first : {w u v : World R H} → Step w u → Reach u v → Reach w v
  Reach-first st here = next here st
  Reach-first st (next r st') = next (Reach-first st r) st'

  after : {w u : World R H} (run : String) → Step w u → CanEnd u run → CanEnd w run
  after run st (v, r, ended) = (v, Reach-first st r, ended)

  module _ (run : String) (handle : H) (st : Nav2Status)
      (final : is_terminal (canonical_state st) ≡ true) where
    ends_executing : (w : World R H) → lookup run w.stages ≡ some executing → CanEnd w run
    unfolding result
    ends_executing w at = (
      _,
      next here (World.results run (returned st) at),
      rw (lookup-insert_self run _ w.bridge.goal_states) final,
    )

    ends_awaiting : (w : World R H) → lookup run w.stages ≡ some awaiting → CanEnd w run
    ends_awaiting w at =
        after run (World.accepts run handle at)
          (ends_executing _ (lookup-insert_self run executing w.stages))

    ends_sent : (w : World R H) → lookup run w.stages ≡ some sent → CanEnd w run
    ends_sent w at =
        after run (World.marks run at) (ends_awaiting _ (lookup-insert_self run awaiting w.stages))

    ends_claimed : (w : World R H) → lookup run w.stages ≡ some claimed → CanEnd w run
    unfolding not_ready
    ends_claimed w at = elim (Bool-cases w.bridge.action_ready) [
      | inl up ↦
          after run (World.sends run at up) (ends_sent _ (lookup-insert_self run sent w.stages))
      | inr down ↦ (
        _,
        next here (World.finds_no_server run at down),
        rw (lookup-insert_self run _ w.bridge.goal_states) refl,
      )
    ]

    -- A run whose code has been dropped has ended.
    dropped_ended :
        (w : World R H)
        → TrackedIn w
        → lookup run w.stages ≡ some dropped
        → has_ended (phase w.bridge.goal_states run) ≡ true
    dropped_ended w t at =
        go (lookup run w.bridge.goal_states)
          (subst (λ o. Fits o (lookup run w.bridge.goal_states)) at (t.fits run))
      where
        go : (o : Option (GoalState R)) → Fits (some dropped) o → has_ended (phase_of o) ≡ true
        go none f = absurd f
        go (some s) f = f

    -- The dispatcher comes to the run by the queue `q`.
    ends_queued :
        (q : Queue R) (w : World R H)
        → w.bridge.nav_queue ≡ q
        → TrackedIn w
        → Awaited w
        → lookup run w.stages ≡ some queued
        → CanEnd w run
    ends_queued [] w is t a at = absurd (subst (InQueue run) is (a run at))
    ends_queued ((gid, payload) ∷ rest) w is t a at = elim (Bool-cases (claim gid w.bridge).1) [
      | inl on ↦
          let step = World.claims gid payload rest is on in
          let (_, _, _, _, queue) = claim_goes_on gid w.bridge rest on in
          elim (Bool-cases (gid =? run)) [
            | inl same ↦ after run step (
                ends_claimed _ (
                  subst (λ g. lookup g (insert gid claimed w.stages) ≡ some claimed)
                    ((eq_iff gid run).0 same) (lookup-insert_self gid claimed w.stages)))
            | inr differs ↦ after run step (
                ends_queued rest _ queue (step-Safe step t).0 (step-Awaited step a)
                  (lookup-insert_other gid run claimed w.stages differs ∙ at))
          ]
      | inr off ↦
          let step = World.drops gid payload rest is off in
          let left : World R H = record w {
            bridge = record (w.bridge) { nav_queue = rest };
            stages = insert gid dropped w.stages;
          } in
          elim (Bool-cases (gid =? run)) [
            | inl same ↦ (
              _,
              next here step,
              dropped_ended left (step-Safe step t).0 (
                  subst (λ g. lookup g (insert gid dropped w.stages) ≡ some dropped)
                    ((eq_iff gid run).0 same) (lookup-insert_self gid dropped w.stages)),
            )
            | inr differs ↦ after run step (
                ends_queued rest _ refl (step-Safe step t).0 (step-Awaited step a)
                  (lookup-insert_other gid run dropped w.stages differs ∙ at))
          ]
    ]

    ends_submitting :
        (w : World R H)
        → TrackedIn w
        → Awaited w
        → lookup run w.stages ≡ some submitting
        → CanEnd w run
    ends_submitting w t a at =
        let payload : Payload R = record {
          frame_id = "";
          x = whole 0;
          y = whole 0;
          yaw = whole 0;
        } in
        let step = World.enqueues run payload at in
        after run step (
          ends_queued _ _ refl (step-Safe step t).0 (step-Awaited step a)
            (lookup-insert_self run queued w.stages))

    ends_from :
        (w : World R H) (o : Option Stage)
        → TrackedIn w
        → Awaited w
        → lookup run w.stages ≡ o
        → o ≢ none
        → o ≢ some done
        → CanEnd w run
    ends_from w none t a at known open_ = absurd (known refl)
    ends_from w (some submitting) t a at known open_ = ends_submitting w t a at
    ends_from w (some queued) t a at known open_ = ends_queued _ w refl t a at
    ends_from w (some claimed) t a at known open_ = ends_claimed w at
    ends_from w (some sent) t a at known open_ = ends_sent w at
    ends_from w (some awaiting) t a at known open_ = ends_awaiting w at
    ends_from w (some executing) t a at known open_ = ends_executing w at
    ends_from w (some dropped) t a at known open_ = (w, here, dropped_ended w t at)
    ends_from w (some done) t a at known open_ = absurd (open_ refl)

  pub run_can_end :
      {s w : World R H} (run : String) (handle : H) (st : Nav2Status)
      → IsStart s
      → Reach s w
      → is_terminal (canonical_state st) ≡ true
      → lookup run w.stages ≢ none
      → lookup run w.stages ≢ some done
      → (v : World R H) × Reach w v × (has_ended (phase v.bridge.goal_states run) ≡ true)
  run_can_end {w = w} run handle st start r final known unfinished =
      ends_from run handle st final w (lookup run w.stages) (Reach-Safe (start-TrackedIn start) r).0
        (Reach-Awaited (start-Awaited start) r) refl known unfinished
