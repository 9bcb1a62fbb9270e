-- ===== src/Bridge/Cover.antt =====
-- Who owns the speed limit of nav2_wrapper/atlas_bridge.py, and what the speed handlers do to it.
use mathlib.Core.List.{◌++◌}
use service_navigation_rbnx.Base.{
  String, Bool, true, false, ◌≡◌, ◌≢◌, ◌⊎◌, inl, inr, Option, some, List, [], ◌∷◌, arith, eq_iff,
  ne_of_test, Bool-cases, Option-cases, ◌=?◌, ◌∙◌, sym,
}
use service_navigation_rbnx.Float.{Float}
use service_navigation_rbnx.Dict.{Dict, lookup}
use service_navigation_rbnx.Speed.Decide.{SpeedDecision}
use service_navigation_rbnx.Bridge.State.{
  GoalState, Bridge, SpeedState, session, goal, resolve_run_id,
}
use service_navigation_rbnx.Bridge.Runs.{returned, CancelPlan}
use service_navigation_rbnx.Bridge.Limit.{
  Publish, Request, prepare, apply_speed_decision, commit, publish_speed_limit,
  restore_speed_after_run, refresh_speed_subscriber, active_speed_run_id,
}
use service_navigation_rbnx.Bridge.Frame.{Active, Keeps, is_restore}
use service_navigation_rbnx.Bridge.World.{World, after_cancel}

abbrev pub In : String → List String → Type 0
In run [] = ⊥
In run (x ∷ xs) = (run ≡ x) ⊎ In run xs

pub In-remove :
    (run x : String) (before after : List String)
    → run ≢ x
    → In run (before ++ x ∷ after)
    → In run (before ++ after)
In-remove run x [] after ne (inl e) = absurd (ne e)
In-remove run x [] after ne (inr h) = h
In-remove run x (y ∷ ys) after ne (inl e) = inl e
In-remove run x (y ∷ ys) after ne (inr h) = inr (In-remove run x ys after ne h)

module _ {R : Type 0} where
  -- The run is pending or running, or a thread is still to restore the speed after it.
  abbrev pub Covered : Dict (GoalState R) → List String → String → Type 0
  Covered d restores run = Active d run ⊎ In run restores

  -- A step that ends no run.
  pub cover_kept :
      (d d' : Dict (GoalState R)) (rs : List String)
      → Keeps d d'
      → (run : String) → Covered d rs run
      → Covered d' rs run
  cover_kept d d' rs keeps run (inl a) = inl (keeps run a)
  cover_kept d d' rs keeps run (inr i) = inr i

  -- A step that may end run `gid`, and leaves a restore to be called.
  pub cover_ended :
      (d d' : Dict (GoalState R)) (rs : List String) (gid : String)
      → ((run : String) → run ≢ gid → lookup run d' ≡ lookup run d)
      → (run : String) → Covered d rs run
      → Covered d' (gid ∷ rs) run
  cover_ended d d' rs gid others run (inr i) = inr (inr i)
  cover_ended d d' rs gid others run (inl a) = elim (Bool-cases (run =? gid)) [
    | inl same ↦ inr (inl ((eq_iff run gid).0 same))
    | inr differs ↦ inl (rw (others run (ne_of_test run gid differs)) a)
  ]

module _ {R H : Type 0} where
  abbrev pub CoveredIn : World R H → String → Type 0
  CoveredIn w run = Covered w.bridge.goal_states w.restores run

  pub record OwnerLives (w : World R H) : Type 0 where
    -- the owner of a goal-scoped limit
    pub owner : w.bridge.speed.scope ≡ goal → CoveredIn w w.bridge.speed.scope_run_id
    -- the run that a mutation under way is about to make the owner
    pub next_owner :
        (d : SpeedDecision R) (run : String) → w.committing ≡ some (d, run, false) → CoveredIn w run

  -- A step that leaves the speed alone and covers every run that was covered.
  pub OwnerLives-of :
      (w v : World R H)
      → v.bridge.speed ≡ w.bridge.speed
      → v.committing ≡ w.committing
      → ((run : String) → CoveredIn w run → CoveredIn v run)
      → OwnerLives w
      → OwnerLives v
  OwnerLives-of w v speed committing cover inv = record {
    owner = λ g. rw speed (cover _ (inv.owner (rw speed at g)));
    next_owner = λ d run c. cover run (inv.next_owner d run (sym committing ∙ c));
  }

module _ {R H : Type 0} ⦃fl : Float R⦄ where
  active_speed_run_id-Active :
      (run owner : String) (b : Bridge R H)
      → active_speed_run_id run b ≡ returned owner
      → Active b.goal_states owner
  unfolding active_speed_run_id
  active_speed_run_id-Active run owner b h =
      elim (Option-cases (lookup (resolve_run_id run b) b.goal_states)) [
        | inl missing ↦ ground arith
        | inr (s, found) ↦ ground arith
      ]

  pub prepare-Active :
      (channels : Bool) (request : Request R) (run owner : String) (d : SpeedDecision R)
      (b : Bridge R H)
      → prepare channels request run false b ≡ returned (owner, d)
      → Active b.goal_states owner
  unfolding prepare
  prepare-Active channels request run owner d b h =
      ground (arith, active_speed_run_id-Active run owner b)

  -- An accepted mutation belongs to the session, or to the run it was prepared for.
  pub apply_scope :
      (channels : Bool) (outcome : Publish) (d : SpeedDecision R) (run : String) (persist : Bool)
      (b : Bridge R H)
      → let b' = (apply_speed_decision channels outcome d run persist b).0 in
        (b'.goal_states ≡ b.goal_states)
        × (((b'.speed.scope ≡ b.speed.scope) × (b'.speed.scope_run_id ≡ b.speed.scope_run_id))
            ⊎ ((b'.speed.scope ≡ session) ⊎ ((persist ≡ false) × (b'.speed.scope_run_id ≡ run))))
  unfolding apply_speed_decision commit publish_speed_limit
  apply_scope channels outcome d run persist b = ground arith

module _ {R : Type 0} where
  pub restore_scope :
      (outcome : Publish) (run : String) (s : SpeedState R)
      → let s' = restore_speed_after_run outcome run s in
        (s'.scope ≡ session)
        ⊎ ((s'.scope ≡ s.scope)
            × (s'.scope_run_id ≡ s.scope_run_id)
            × (s.scope ≡ goal → s.scope_run_id ≢ run))
  unfolding restore_speed_after_run publish_speed_limit
  restore_scope outcome run s = ground (arith, eq_iff s.scope_run_id run)

  pub refresh_scope :
      (connected : Option Bool) (outcome : Publish) (s : SpeedState R)
      → let s' = refresh_speed_subscriber connected outcome s in
        (s'.scope ≡ s.scope) × (s'.scope_run_id ≡ s.scope_run_id)
  unfolding refresh_speed_subscriber publish_speed_limit
  refresh_scope connected outcome s = ground arith

module _ {H : Type 0} where
  pub after_cancel_kept :
      (plan : CancelPlan H) (run : String) (runs : List String)
      → is_restore plan ≡ false
      → after_cancel plan run runs ≡ runs
  after_cancel_kept plan run runs h = ground arith

  pub after_cancel_restore :
      (plan : CancelPlan H) (run : String) (runs : List String)
      → is_restore plan ≡ true
      → after_cancel plan run runs ≡ run ∷ runs
  after_cancel_restore plan run runs h = ground arith
