-- ===== src/Bridge/Scope.antt =====
-- The owner of the speed limit of nav2_wrapper/atlas_bridge.py under every interleaving.

use service_navigation_rbnx.Base.{
  String, true, false, ◌≡◌, refl, inl, inr, some, Bool-cases, ◌∙◌, ap, sym, subst,
}
use service_navigation_rbnx.Float.{Float}
use service_navigation_rbnx.Bridge.State.{goal}
use service_navigation_rbnx.Bridge.Runs.{
  cancel, enqueue, not_ready, clear_diagnostics, mark_sent, goal_accepted,
}
use service_navigation_rbnx.Bridge.Frame.{
  is_restore, insert_other, navigate-Keeps, claim-Keeps, mark_sent-Keeps, goal_accepted-Keeps,
  feedback-Keeps, issue_cancel-Keeps, cancel_response-Keeps, cancel-Keeps, cancel_others,
  goal_refused_others, result_others, navigate_speed, claim_speed, goal_refused_speed, result_speed,
  cancel_speed, issue_cancel_speed, cancel_response_speed, feedback_speed,
}
use service_navigation_rbnx.Bridge.World.{
  World, Step, Reach, here, next, IsStart, after_cancel, set_speed,
}
use service_navigation_rbnx.Bridge.World
use service_navigation_rbnx.Bridge.Cover.{
  In, In-remove, CoveredIn, OwnerLives, OwnerLives-of, cover_kept, cover_ended, prepare-Active,
  apply_scope, restore_scope, refresh_scope, after_cancel_kept, after_cancel_restore,
}

module _ {R H : Type 0} ⦃fl : Float R⦄ where
  cancel_covers :
      (w : World R H) (gid : String)
      → let v = record w {
        bridge = (cancel gid w.bridge).0;
        restores = after_cancel (cancel gid w.bridge).1 gid w.restores;
      } in
        (run : String) → CoveredIn w run → CoveredIn v run
  cancel_covers w gid = elim (Bool-cases (is_restore (cancel gid w.bridge).1)) [
    | inl ends ↦
        rw (after_cancel_restore (cancel gid w.bridge).1 gid w.restores ends)
          (cover_ended _ _ w.restores gid (cancel_others gid w.bridge))
    | inr keeps ↦
        rw (after_cancel_kept (cancel gid w.bridge).1 gid w.restores keeps)
          (cover_kept _ _ w.restores (cancel-Keeps gid w.bridge keeps))
  ]

  step-OwnerLives : {w v : World R H} → Step w v → OwnerLives w → OwnerLives v
  unfolding enqueue clear_diagnostics mark_sent goal_accepted not_ready
  step-OwnerLives {w} (World.navigates run _ _ _ _) inv =
      OwnerLives-of w _ (navigate_speed run w.bridge) refl
        (cover_kept _ _ w.restores (navigate-Keeps run w.bridge)) inv
  step-OwnerLives {w} (World.enqueues run payload _) inv =
      OwnerLives-of w _ refl refl (λ r c. c) inv
  step-OwnerLives {w} (World.claims run payload rest _ _) inv =
      OwnerLives-of w _ (claim_speed run (record (w.bridge) { nav_queue = rest })) refl
        (cover_kept _ _ w.restores (claim-Keeps run (record (w.bridge) { nav_queue = rest }))) inv
  step-OwnerLives {w} (World.drops run payload rest _ _) inv =
      OwnerLives-of w _ refl refl (λ r c. c) inv
  step-OwnerLives {w} (World.finds_no_server run _ _) inv =
      OwnerLives-of w _ refl refl
        (cover_ended _ _ w.restores run (λ r ne. insert_other run r _ w.bridge.goal_states ne)) inv
  step-OwnerLives {w} (World.sends run _ _) inv = OwnerLives-of w _ refl refl (λ r c. c) inv
  step-OwnerLives {w} (World.marks run _) inv =
      OwnerLives-of w _ refl refl (cover_kept _ _ w.restores (mark_sent-Keeps run w.bridge)) inv
  step-OwnerLives {w} (World.refuses run reason _) inv =
      OwnerLives-of w _ (goal_refused_speed run w.bridge reason) refl
        (cover_ended _ _ w.restores run (goal_refused_others run w.bridge reason)) inv
  step-OwnerLives {w} (World.accepts run handle _) inv =
      OwnerLives-of w _ refl refl
        (cover_kept _ _ w.restores (goal_accepted-Keeps run w.bridge handle)) inv
  step-OwnerLives {w} (World.results run outcome _) inv =
      OwnerLives-of w _ (result_speed run w.bridge outcome) refl
        (cover_ended _ _ w.restores run (result_others run w.bridge outcome)) inv
  step-OwnerLives {w} (World.cancels run) inv =
      OwnerLives-of w _ (cancel_speed run w.bridge) refl (cancel_covers w run) inv
  step-OwnerLives {w} (World.issues run outcome _) inv =
      OwnerLives-of w _ (issue_cancel_speed run w.bridge outcome) refl
        (cover_kept _ _ w.restores (issue_cancel-Keeps run w.bridge outcome)) inv
  step-OwnerLives {w} (World.replies run reply _) inv =
      OwnerLives-of w _ (cancel_response_speed run w.bridge reply) refl
        (cover_kept _ _ w.restores (cancel_response-Keeps run w.bridge reply)) inv
  step-OwnerLives {w} (World.feeds run summary) inv =
      OwnerLives-of w _ (feedback_speed run w.bridge summary) refl
        (cover_kept _ _ w.restores (feedback-Keeps run w.bridge summary)) inv
  step-OwnerLives {w} (World.prepares channels request run owner true d free prepared) inv =
      record { owner = inv.owner; next_owner = λ d' r c. cc }
  step-OwnerLives {w} (World.prepares channels request run owner false d free prepared) inv =
      record {
        owner = inv.owner;
        next_owner = λ d' r c.
            let same : owner ≡ r = cc in
            subst (CoveredIn w) same
              (inl (prepare-Active channels request run owner d w.bridge prepared));
      }
  step-OwnerLives {w} (World.commits channels outcome d owner persist held) inv =
      let (states, how) = apply_scope channels outcome d owner persist w.bridge in
      record {
        owner = λ g. rw states (elim how [
          | inl (sc, id) ↦ rw id (inv.owner (sym sc ∙ g))
          | inr (inl sc) ↦ cc
          | inr (inr (goal_only, id)) ↦
              rw id (inv.next_owner d owner (held ∙ ap (λ p. some (d, owner, p)) goal_only))
        ]);
        next_owner = λ d' r c. cc;
      }
  step-OwnerLives {w} (World.restores_speed run before after outcome at free) inv = record {
    owner = λ g. elim (restore_scope outcome run w.bridge.speed) [
      | inl sc ↦ cc
      | inr (sc, id, ne) ↦
          let was : w.bridge.speed.scope ≡ goal = sym sc ∙ g in
          rw id (elim (inv.owner was) [
            | inl a ↦ inl a
            | inr i ↦ inr (In-remove _ run before after (ne was) (subst (In _) at i))
          ])
    ];
    next_owner = λ d r c. cc;
  }
  step-OwnerLives {w} (World.refreshes connected outcome) inv =
      let (sc, id) = refresh_scope connected outcome w.bridge.speed in
      record { owner = λ g. rw id (inv.owner (sym sc ∙ g)); next_owner = inv.next_owner }

  start-OwnerLives : {w : World R H} → IsStart w → OwnerLives w
  start-OwnerLives s = record { owner = λ g. cc; next_owner = λ d run c. cc (s.no_commit) }

  Reach-OwnerLives : {w v : World R H} → OwnerLives w → Reach w v → OwnerLives v
  Reach-OwnerLives inv here = inv
  Reach-OwnerLives inv (next r st) = step-OwnerLives st (Reach-OwnerLives inv r)

  -- From a bridge without runs, whose limit is the session's, whatever the order in which the threads
  -- take their steps, a limit that belongs to a run belongs to one that is pending or running, or for
  -- which a thread is still to restore the session's limit.
  pub owner_is_active :
      {w v : World R H}
      → IsStart w
      → Reach w v
      → v.bridge.speed.scope ≡ goal
      → CoveredIn v v.bridge.speed.scope_run_id
  owner_is_active s r g = (Reach-OwnerLives (start-OwnerLives s) r).owner g
