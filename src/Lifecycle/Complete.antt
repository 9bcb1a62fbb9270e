-- ===== src/Lifecycle/Complete.antt =====
-- What nav2_wrapper/atlas_bridge.py has running once `_spawn_nav2` returns.
use service_navigation_rbnx.Base.{
  String, ◌≡◌, refl, subst, Bool, true, false, Option, is_some, List, arith,
}
use service_navigation_rbnx.Float.{Float}
use service_navigation_rbnx.Value.{Value, Fields}
use service_navigation_rbnx.Replace.{Code}
use service_navigation_rbnx.Fallible.{Fallible, ok, err}
use service_navigation_rbnx.Launch.{guarded_launch}
use service_navigation_rbnx.Launch.Guarded.{IsGuarded, guarded_launch-IsGuarded}
use service_navigation_rbnx.Topic.{resolve_velocity_output_topic}
use service_navigation_rbnx.Bridge.Runs.{Outcome, raised, returned}
use service_navigation_rbnx.Lifecycle.Profile.{send_full_costmap, pin_collision_monitor}
use service_navigation_rbnx.Lifecycle.Process.{
  Process, Host, Action, after, ◌>>=◌, ◌>>◌, pure, lift, Popen, spawn, when, choose, raise,
  keep_guard, keep_monitor, keep_nav2,
}
use service_navigation_rbnx.Lifecycle.Spawn.{
  Surroundings, topic_text, controller_topic, patched, materialize_params, spawn_velocity_guard,
  spawn_nav2,
}

-- `Q` where an action returns.
abbrev Yields : {A : Type 0} → (A → Host → Type 0) → Host × Outcome A → Type 0
Yields Q (h, raised e) = Unit
Yields Q (h, returned a) = Q a h

after-Yields :
    {A B : Type 0} (Q : A → Host → Type 0) (S : B → Host → Type 0) (r : Host × Outcome A)
    (k : A → Action B)
    → Yields Q r
    → ((a : A) (h : Host) → Q a h → Yields S (k a h))
    → Yields S (after r k)
after-Yields Q S (h, raised e) k q next = tt
after-Yields Q S (h, returned a) k q next = next a h q

-- Whatever an action gives, where only what follows it matters.
follows-Yields :
    {A B : Type 0} (S : B → Host → Type 0) (r : Host × Outcome A) (k : A → Action B)
    → ((a : A) (h : Host) → Yields S (k a h))
    → Yields S (after r k)
follows-Yields S (h, raised e) k next = tt
follows-Yields S (h, returned a) k next = next a h

lift-Yields :
    {A B : Type 0} (S : B → Host → Type 0) (o : Outcome A) (k : A → Action B) (h : Host)
    → ((a : A) → o ≡ returned a → Yields S (k a h))
    → Yields S (after (h, o) k)
lift-Yields S (raised e) k h next = tt
lift-Yields S (returned a) k h next = next a refl

spawn-Yields :
    (Q : Host → Type 0) (popen : Popen) (keep : Process → Host → Host) (h : Host)
    → ((p : Process) → Q (keep p h))
    → Yields (λ _ i. Q i) (spawn popen keep h)
spawn-Yields Q (Popen.started p) keep h kept = kept p
spawn-Yields Q Popen.not_found keep h kept = tt
spawn-Yields Q (Popen.failed e) keep h kept = tt

abbrev HasGuard : Host → Type 0
HasGuard h = is_some h.velocity_guard ≡ true

abbrev HasMonitor : Bool → Host → Type 0
HasMonitor true h = is_some h.collision_monitor ≡ true
HasMonitor false h = Unit

-- Nav2 is started from a guarded launch file made from its own, the final guard is started, and with a
-- collision monitor the monitor is as well.
pub record Complete {R : Type 0} (around : Surroundings R) (launch : Code) (h : Host) : Type 0 where
  pub controller : Option String
  pub monitored : Bool
  pub original : Code
  pub nav2 : is_some h.nav2 ≡ true
  pub guard : HasGuard h
  pub monitor : HasMonitor monitored h
  pub read : around.launch_text ≡ returned original
  pub guarded : IsGuarded controller monitored original launch

module _ {R : Type 0} ⦃fl : Float R⦄ (str : Value R → String) (around : Surroundings R) where
  guard_chosen :
      (ready : Bool) (h : Host)
      → Yields
          (λ _ i. HasGuard i)
          (choose ready
            (spawn around.guard keep_guard)
            (raise "dynamic speed settings are not initialized")
            h)
  guard_chosen true h = spawn-Yields HasGuard around.guard keep_guard h (λ p. refl)
  guard_chosen false h = tt

  spawn_velocity_guard-HasGuard :
      (cfg : Fields R) (ready : Bool) (h : Host)
      → Yields (λ _ i. HasGuard i) (spawn_velocity_guard str around cfg ready h)
  unfolding spawn_velocity_guard
  spawn_velocity_guard-HasGuard cfg ready h =
      lift-Yields (λ _ i. HasGuard i)
        (topic_text (resolve_velocity_output_topic str cfg around.topic_environment)) _ h
        (λ _ e. guard_chosen ready h)

  monitor_kept :
      (b : Bool) (h : Host)
      → HasGuard h
      → Yields (λ _ i. HasGuard i × HasMonitor b i) (when b (spawn around.monitor keep_monitor) h)
  monitor_kept true h g =
      spawn-Yields (λ i. HasGuard i × HasMonitor true i) around.monitor keep_monitor h
        (λ p. (g, refl))
  monitor_kept false h g = (g, tt)

  patched-IsGuarded :
      (controller : Option String) (b : Bool) (original launch : Code)
      → patched str around controller b original ≡ returned launch
      → IsGuarded controller b original launch
  patched-IsGuarded controller b original launch e =
      guarded_launch-IsGuarded controller b original launch
        (ok_of (guarded_launch controller b original) launch e)
    where
      ok_of :
          {E : Type 0} (f : Fallible E Code) (t : Code)
          → (elim f [ ok t ↦ returned t | err e ↦ raised "unsupported nav2 launch layout" ])
            ≡ returned t
          → f ≡ ok t
      ok_of (ok s) t e = ground arith
      ok_of (err s) t e = cc

  pub spawn_nav2-Complete :
      (cfg : Fields R) (ready : Bool) (remaps : List Code) (h i : Host) (launch : Code)
      → spawn_nav2 str around cfg ready remaps h ≡ (i, returned launch)
      → Complete around launch i
  unfolding spawn_nav2
  spawn_nav2-Complete cfg ready remaps h i launch e =
      subst (λ r. Yields (Complete around) r) e yields
    where
      monitor_stays :
          (b : Bool) (k : Host) (p : Process) → HasMonitor b k → HasMonitor b (keep_nav2 p k)
      monitor_stays true k p m = m
      monitor_stays false k p m = tt

      both :
          (controller : Option String) (b : Bool) (original launch : Code) (j : Host)
          → around.launch_text ≡ returned original
          → patched str around controller b original ≡ returned launch
          → HasGuard j
          → Yields (Complete around) (
              (when b (spawn around.monitor keep_monitor)
                  >> (spawn around.nav2 keep_nav2 >> pure launch))
                j)
      both controller b original launch j read e g =
          after-Yields (λ _ k. HasGuard k × HasMonitor b k) (Complete around)
            (when b (spawn around.monitor keep_monitor) j) _ (monitor_kept b j g)
            (λ _ k hs.
              after-Yields (λ _ l. Complete around launch l) (Complete around)
                (spawn around.nav2 keep_nav2 k) _
                (spawn-Yields (Complete around launch) around.nav2 keep_nav2 k (λ p. record {
                  controller = controller;
                  monitored = b;
                  original = original;
                  nav2 = refl;
                  guard = hs.0;
                  monitor = monitor_stays b k p hs.1;
                  read = read;
                  guarded = patched-IsGuarded controller b original launch e;
                }))
                (λ _ l c. c))

      guarded :
          (controller : Option String) (b : Bool) (j : Host)
          → Yields (Complete around) (
              (spawn_velocity_guard str around cfg ready
                  >> (lift around.launch_text >>= λ original.
                      lift (patched str around controller b original) >>= λ launch.
                      when b (spawn around.monitor keep_monitor)
                      >> (spawn around.nav2 keep_nav2 >> pure launch)))
                j)
      guarded controller b j =
          after-Yields (λ _ k. HasGuard k) (Complete around)
            (spawn_velocity_guard str around cfg ready j) _
            (spawn_velocity_guard-HasGuard cfg ready j)
            (λ _ k g. lift-Yields (Complete around) around.launch_text _ k (λ original read.
              lift-Yields (Complete around) (patched str around controller b original) _ k
                (λ launch e. both controller b original launch k read e g)))

      yields : Yields (Complete around) (spawn_nav2 str around cfg ready remaps h)
      yields = lift-Yields (Complete around) (controller_topic str around cfg) _ h (λ controller _.
          follows-Yields (Complete around) (materialize_params str around cfg remaps h) _
            (λ params j. lift-Yields (Complete around) (around.load params.0) _ j (λ document _.
              lift-Yields (Complete around) (send_full_costmap document) _ j (λ costmap _.
                lift-Yields (Complete around) (pin_collision_monitor costmap) _ j
                  (λ monitor _. guarded controller (is_some monitor) j)))))
