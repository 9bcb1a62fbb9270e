-- ===== src/Bridge/Ranged.antt =====
-- The percentages of nav2_wrapper/atlas_bridge.py under every interleaving.
use service_navigation_rbnx.Base.{
  String, Bool, true, false, ◌≡◌, refl, ◌⊎◌, inl, inr, Option, some, arith, ◌∙◌, sym,
}
use service_navigation_rbnx.Float.{Float, FloatLaws, ◌≤?◌, whole}
use service_navigation_rbnx.Speed.Settings.{SpeedSettings, ok}
use service_navigation_rbnx.Speed.Decide.{SpeedDecision, decide_explicit}
use service_navigation_rbnx.Speed.Bounds.{IsValid}
use service_navigation_rbnx.Speed.Range.{InRange, decide_adjustment-InRange, decide_explicit_iff}
use service_navigation_rbnx.Bridge.State.{Bridge, SpeedState}
use service_navigation_rbnx.Bridge.Runs.{
  returned, not_ready, clear_diagnostics, mark_sent, goal_accepted, enqueue,
}
use service_navigation_rbnx.Bridge.Limit.{
  Publish, Request, relative, explicit, decide, prepare, apply_speed_decision, commit,
  publish_speed_limit, restore_speed_after_run, refresh_speed_subscriber,
}
use service_navigation_rbnx.Bridge.Frame.{
  navigate_speed, claim_speed, goal_refused_speed, result_speed, cancel_speed, issue_cancel_speed,
  cancel_response_speed, feedback_speed,
}
use service_navigation_rbnx.Bridge.World.{World, Step, Reach, here, next}
use service_navigation_rbnx.Bridge.World

-- The settings are `s`, both limits are in their range, and so is the decision under way.
pub record SpeedRanged {R : Type 0} ⦃fl : Float R⦄ (s : SpeedSettings R) (p : SpeedState R)
    : Type 0 where
  pub settings : p.settings ≡ some s
  pub percentage : InRange s p.percentage
  pub session_percentage : InRange s p.session_percentage

pub record Ranged {R H : Type 0} ⦃fl : Float R⦄ (s : SpeedSettings R) (w : World R H) : Type 0 where
  pub speed : SpeedRanged s w.bridge.speed
  pub decided :
      (d : SpeedDecision R) (owner : String) (persist : Bool)
      → w.committing ≡ some (d, owner, persist)
      → InRange s d.percentage

module _ {R : Type 0} where
  restored :
      (outcome : Publish) (run : String) (p : SpeedState R)
      → let p' = restore_speed_after_run outcome run p in
        (p'.settings ≡ p.settings)
        × (p'.session_percentage ≡ p.session_percentage)
        × ((p'.percentage ≡ p.percentage) ⊎ (p'.percentage ≡ p.session_percentage))
  unfolding restore_speed_after_run publish_speed_limit
  restored outcome run p = ground arith

  refreshed :
      (connected : Option Bool) (outcome : Publish) (p : SpeedState R)
      → let p' = refresh_speed_subscriber connected outcome p in
        (p'.settings ≡ p.settings)
        × (p'.percentage ≡ p.percentage)
        × (p'.session_percentage ≡ p.session_percentage)
  unfolding refresh_speed_subscriber publish_speed_limit
  refreshed connected outcome p = ground arith

module _ {R : Type 0} ⦃fl : Float R⦄ (s : SpeedSettings R) where
  accepted :
      (p c : R) (d : SpeedDecision R)
      → decide_explicit c p s ≡ ok d
      → (fl.is_finite p ≡ true) × ((s.min_percentage ≤? p) ≡ true) × ((p ≤? whole 100) ≡ true)
  unfolding decide_explicit
  accepted p c d e = ground arith

module _ {R H : Type 0} ⦃fl : Float R⦄ (s : SpeedSettings R) where
  decided :
      (channels : Bool) (request : Request R) (run owner : String) (persist : Bool)
      (d : SpeedDecision R) (b : Bridge R H)
      → b.speed.settings ≡ some s
      → prepare channels request run persist b ≡ returned (owner, d)
      → decide request b.speed.percentage s ≡ ok d
  unfolding prepare
  decided channels request run owner persist d b h e = ground arith

module _ {R : Type 0} ⦃fl : Float R⦄ (laws : FloatLaws R) (s : SpeedSettings R)
    (valid : IsValid s) where
  decide-InRange :
      (request : Request R) (c : R) (d : SpeedDecision R)
      → InRange s c
      → decide request c s ≡ ok d
      → InRange s d.percentage
  unfolding decide
  decide-InRange (relative direction) c d h e =
      decide_adjustment-InRange laws s valid c direction d h e
  decide-InRange (explicit p) c d h e =
      let (d', found, _, range) = (decide_explicit_iff laws s valid c p).1 (accepted s p c d e) in
      let same : d' ≡ d = cc in rw (sym same) range

module _ {R : Type 0} ⦃fl : Float R⦄ (s : SpeedSettings R) where
  apply-SpeedRanged :
      {H : Type 0} (channels : Bool) (outcome : Publish) (d : SpeedDecision R) (owner : String)
      (persist : Bool) (b : Bridge R H)
      → InRange s d.percentage
      → SpeedRanged s b.speed
      → SpeedRanged s (apply_speed_decision channels outcome d owner persist b).0.speed
  unfolding apply_speed_decision publish_speed_limit commit
  apply-SpeedRanged channels Publish.delivered d owner true b r h = record {
    settings = h.settings;
    percentage = r;
    session_percentage = r;
  }
  apply-SpeedRanged channels Publish.delivered d owner false b r h = record {
    settings = h.settings;
    percentage = r;
    session_percentage = h.session_percentage;
  }
  apply-SpeedRanged channels (Publish.nav2_only e) d owner persist b r h = record {
    settings = h.settings;
    percentage = h.percentage;
    session_percentage = h.session_percentage;
  }
  apply-SpeedRanged channels (Publish.unsent e) d owner persist b r h = h

  restore-SpeedRanged :
      (outcome : Publish) (run : String) (p : SpeedState R)
      → SpeedRanged s p
      → SpeedRanged s (restore_speed_after_run outcome run p)
  restore-SpeedRanged outcome run p h =
      let (settings, session_same, choice) = restored outcome run p in
      record {
        settings = settings ∙ h.settings;
        percentage = elim choice [
          | inl same ↦ rw same h.percentage
          | inr back ↦ rw back h.session_percentage
        ];
        session_percentage = rw session_same h.session_percentage;
      }

  refresh-SpeedRanged :
      (connected : Option Bool) (outcome : Publish) (p : SpeedState R)
      → SpeedRanged s p
      → SpeedRanged s (refresh_speed_subscriber connected outcome p)
  refresh-SpeedRanged connected outcome p h =
      let (settings, percentage, session_percentage) = refreshed connected outcome p in
      record {
        settings = settings ∙ h.settings;
        percentage = rw percentage h.percentage;
        session_percentage = rw session_percentage h.session_percentage;
      }

module _ {R H : Type 0} ⦃fl : Float R⦄ (laws : FloatLaws R) (s : SpeedSettings R)
    (valid : IsValid s) where
  prepare-InRange :
      (channels : Bool) (request : Request R) (run owner : String) (persist : Bool)
      (d : SpeedDecision R) (b : Bridge R H)
      → SpeedRanged s b.speed
      → prepare channels request run persist b ≡ returned (owner, d)
      → InRange s d.percentage
  prepare-InRange channels request run owner persist d b h e =
      decide-InRange laws s valid request b.speed.percentage d h.percentage
        (decided s channels request run owner persist d b h.settings e)

  -- A step that leaves the speed alone, and the decision under way.
  Ranged-of :
      (w v : World R H)
      → v.bridge.speed ≡ w.bridge.speed
      → v.committing ≡ w.committing
      → Ranged s w
      → Ranged s v
  Ranged-of w v speed committing h = record {
    speed = rw speed h.speed;
    decided = λ d owner persist c. h.decided d owner persist (sym committing ∙ c);
  }

  step-Ranged : {w v : World R H} → Step w v → Ranged s w → Ranged s v
  unfolding enqueue clear_diagnostics mark_sent goal_accepted not_ready
  step-Ranged {w} (World.navigates run _ _ _ _) h =
      Ranged-of w _ (navigate_speed run w.bridge) refl h
  step-Ranged {w} (World.enqueues run payload _) h = Ranged-of w _ refl refl h
  step-Ranged {w} (World.claims run payload rest _ _) h =
      Ranged-of w _ (claim_speed run (record (w.bridge) { nav_queue = rest })) refl h
  step-Ranged {w} (World.drops run payload rest _ _) h = Ranged-of w _ refl refl h
  step-Ranged {w} (World.finds_no_server run _ _) h = Ranged-of w _ refl refl h
  step-Ranged {w} (World.sends run _ _) h = Ranged-of w _ refl refl h
  step-Ranged {w} (World.marks run _) h = Ranged-of w _ refl refl h
  step-Ranged {w} (World.refuses run reason _) h =
      Ranged-of w _ (goal_refused_speed run w.bridge reason) refl h
  step-Ranged {w} (World.accepts run handle _) h = Ranged-of w _ refl refl h
  step-Ranged {w} (World.results run outcome _) h =
      Ranged-of w _ (result_speed run w.bridge outcome) refl h
  step-Ranged {w} (World.cancels run) h = Ranged-of w _ (cancel_speed run w.bridge) refl h
  step-Ranged {w} (World.issues run outcome _) h =
      Ranged-of w _ (issue_cancel_speed run w.bridge outcome) refl h
  step-Ranged {w} (World.replies run reply _) h =
      Ranged-of w _ (cancel_response_speed run w.bridge reply) refl h
  step-Ranged {w} (World.feeds run summary) h =
      Ranged-of w _ (feedback_speed run w.bridge summary) refl h
  step-Ranged {w} (World.prepares channels request run owner persist d free prepared) h = record {
    speed = h.speed;
    decided = λ d' o p c.
        let same : d ≡ d' = cc in
        rw (sym same)
          (prepare-InRange channels request run owner persist d w.bridge h.speed prepared);
  }
  step-Ranged {w} (World.commits channels outcome d owner persist held) h = record {
    speed =
        apply-SpeedRanged s channels outcome d owner persist w.bridge
          (h.decided d owner persist held) h.speed;
    decided = λ d' o p c. cc;
  }
  step-Ranged {w} (World.restores_speed run before after outcome at free) h = record {
    speed = restore-SpeedRanged s outcome run w.bridge.speed h.speed;
    decided = λ d o p c. h.decided d o p c;
  }
  step-Ranged {w} (World.refreshes connected outcome) h = record {
    speed = refresh-SpeedRanged s connected outcome w.bridge.speed h.speed;
    decided = λ d o p c. h.decided d o p c;
  }

  pub limits_stay_in_range : {w v : World R H} → Ranged s w → Reach w v → Ranged s v
  limits_stay_in_range h here = h
  limits_stay_in_range h (next r st) = step-Ranged st (limits_stay_in_range h r)
