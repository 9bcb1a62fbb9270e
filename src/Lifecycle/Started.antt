-- ===== src/Lifecycle/Started.antt =====
-- The state that a successful start-up of nav2_wrapper/atlas_bridge.py leaves to the handlers.
use service_navigation_rbnx.Base.{
  String, ◌≡◌, refl, Bool, true, false, Option, none, some, List, [], ◌∷◌, Bool-cases, inl, inr, ap,
  if◌then◌else◌,
}
use service_navigation_rbnx.Float.{Float, min, whole}
use service_navigation_rbnx.Value.{Value, Fields, get}
use service_navigation_rbnx.Replace.{Code}
use service_navigation_rbnx.Topic.{
  TopicResult, accepted, rejected, resolve_velocity_output_topic, validate_text,
}
use service_navigation_rbnx.Speed.Settings.{SpeedSettings, Result, ok, err, speed_settings}
use service_navigation_rbnx.Bridge.State.{Bridge, SpeedState, session}
use service_navigation_rbnx.Bridge.Runs.{Outcome, raised, returned}
use service_navigation_rbnx.Bridge.Limit.{Publish, publish_speed_limit}
use service_navigation_rbnx.Lifecycle.Process.{Host}
use service_navigation_rbnx.Lifecycle.Spawn.{Surroundings}
use service_navigation_rbnx.Lifecycle.Init.{
  Reply, Wrapper, Waits, action_wait, apply_first, wait_ready, spawn_all, after_spawn, after_remaps,
  after_wait, after_tests, init, reset_speed,
}

-- The limit of a new session under the settings `s`.
pub record Fresh {R : Type 0} (s : SpeedSettings R) (p : SpeedState R) : Type 0 where
  pub settings : p.settings ≡ some s
  pub percentage : p.percentage ≡ s.default_percentage
  pub session_percentage : p.session_percentage ≡ s.default_percentage
  pub scope : p.scope ≡ session

-- The handlers serve, and both channels carry the default of the settings `s`.
pub record InForce {R H : Type 0} (s : SpeedSettings R) (b : Bridge R H) : Type 0 where
  pub initialized : b.initialized ≡ true
  pub fresh : Fresh s b.speed
  pub nav2_limit : b.speed.nav2_limit ≡ some s.default_percentage
  pub guard_limit : b.speed.guard_limit ≡ some s.default_percentage

abbrev Begun : {R H : Type 0} → SpeedSettings R → Wrapper R H × Reply → Type 0
Begun s (w, Reply.done) = InForce s w.bridge
Begun s (w, _) = Unit

module _ {R H : Type 0} ⦃fl : Float R⦄ (s : SpeedSettings R) where
  apply_first-Begun :
      (publish : Publish) (h : Host) (b : Bridge R H)
      → Fresh s b.speed
      → Begun s (apply_first publish h b)
  unfolding apply_first publish_speed_limit
  apply_first-Begun Publish.delivered h b f = record {
    initialized = refl;
    fresh = record {
      settings = f.settings;
      percentage = f.percentage;
      session_percentage = f.session_percentage;
      scope = f.scope;
    };
    nav2_limit = ap some f.percentage;
    guard_limit = ap some f.percentage;
  }
  apply_first-Begun (Publish.nav2_only e) h b f = tt
  apply_first-Begun (Publish.unsent e) h b f = tt

  wait_ready-Begun :
      (timeout : R) (waits : Waits R) (h : Host) (b : Bridge R H)
      → Fresh s b.speed
      → Begun s (wait_ready timeout waits h b)
  unfolding wait_ready
  wait_ready-Begun timeout waits h b f = elim (Bool-cases (waits.action_up timeout)) [
    | inr e ↦ rw e tt
    | inl e ↦ elim (Bool-cases (waits.subscribed (min timeout (whole 10)))) [
      | inr g ↦ rw (e, g) tt
      | inl g ↦ rw (e, g) (apply_first-Begun waits.publish h _ f)
    ]
  ]

  spawned-Begun :
      (timeout : R) (waits : Waits R) (b : Bridge R H) (r : Host × Outcome Code)
      → Fresh s b.speed
      → Begun s (after_spawn timeout waits b r)
  unfolding after_spawn
  spawned-Begun timeout waits b (h, raised e) f = tt
  spawned-Begun timeout waits b (h, returned text) f = wait_ready-Begun timeout waits h b f

module _ {R H : Type 0} ⦃fl : Float R⦄ (str : Value R → String) (around : Surroundings R) where
  remaps-Begun :
      (s : SpeedSettings R) (timeout : R) (cfg : Fields R) (waits : Waits R) (h : Host)
      (b : Bridge R H) (remaps : Outcome (List Code × List String))
      → Fresh s b.speed
      → Begun s (after_remaps str around timeout cfg waits h b remaps)
  unfolding after_remaps
  remaps-Begun s timeout cfg waits h b (raised e) f = tt
  remaps-Begun s timeout cfg waits h b (returned (remaps, c ∷ cs)) f = tt
  remaps-Begun s timeout cfg waits h b (returned (remaps, [])) f =
      spawned-Begun s timeout waits b (spawn_all str around cfg remaps h) f

  wait-Begun :
      (s : SpeedSettings R) (timeout : Option R) (cfg : Fields R) (waits : Waits R) (h : Host)
      (b : Bridge R H)
      → Fresh s b.speed
      → Begun s (after_wait str around timeout cfg waits h b)
  unfolding after_wait
  wait-Begun s none cfg waits h b f = tt
  wait-Begun s (some timeout) cfg waits h b f = remaps-Begun s timeout cfg waits h b _ f

  settings-Begun :
      (s : SpeedSettings R) (r : TopicResult) (cfg : Fields R) (waits : Waits R) (w : Wrapper R H)
      → Begun {R = R} {H = H} s (elim r [
        | rejected e ↦ (w, Reply.failed "invalid dynamic_speed config")
        | accepted t ↦
            after_wait str around
              (action_wait (get cfg "action_wait_s"))
              cfg
              waits
              w.host
              (record w.bridge { speed = reset_speed s w.bridge.speed })
      ])
  unfolding reset_speed
  settings-Begun s (rejected e) cfg waits w = tt
  settings-Begun s (accepted t) cfg waits w =
      wait-Begun s _ cfg waits w.host _
        (record { settings = refl; percentage = refl; session_percentage = refl; scope = refl })

  -- A reply of success after the tests comes with settings that were read and are in force.
  ended_well :
      (s : SpeedSettings R) (r : Wrapper R H × Reply)
      → Begun s r
      → r.1 ≡ Reply.done
      → InForce s r.0.bridge
  ended_well s (w, Reply.done) i e = i
  ended_well s (w, Reply.failed why) i e = cc
  ended_well s (w, Reply.deferred cs) i e = cc
  ended_well s (w, Reply.uncaught) i e = cc

  tests-InForce :
      (r : TopicResult) (o : Result (SpeedSettings R)) (cfg : Fields R) (waits : Waits R)
      (w : Wrapper R H)
      → (after_tests str around r o cfg waits w).1 ≡ Reply.done
      → (s : SpeedSettings R) × (o ≡ ok s)
        × InForce s (after_tests str around r o cfg waits w).0.bridge
  unfolding after_tests
  tests-InForce (rejected e) o cfg waits w h = cc
  tests-InForce (accepted t) (err e) cfg waits w h = cc
  tests-InForce (accepted t) (ok s) cfg waits w h = (
    s,
    refl,
    ended_well s (after_tests str around (accepted t) (ok s) cfg waits w)
        (settings-Begun s (validate_text s.topic) cfg waits w) h,
  )

  -- A first start-up that succeeds leaves the handlers serving under the settings that the config's
  -- dynamic_speed holds: the limit is their default, for the session, and both Nav2 and the final
  -- guard have been sent it.
  pub init-InForce :
      (cfg : Fields R) (waits : Waits R) (w : Wrapper R H)
      → w.bridge.initialized ≡ false
      → (init str around cfg waits w).1 ≡ Reply.done
      → (s : SpeedSettings R) × (speed_settings str cfg ≡ ok s)
        × InForce s (init str around cfg waits w).0.bridge
  unfolding init
  init-InForce cfg waits w =
      chosen w.bridge.initialized
        (after_tests str around (resolve_velocity_output_topic str cfg around.topic_environment)
          (speed_settings str cfg) cfg waits w)
        (tests-InForce _ _ cfg waits w)
    where
      chosen :
          (b : Bool) (r : Wrapper R H × Reply)
          → (r.1 ≡ Reply.done
              → (s : SpeedSettings R) × (speed_settings str cfg ≡ ok s) × InForce s r.0.bridge)
          → b ≡ false
          → (if b then (w, Reply.done) else r).1 ≡ Reply.done
          → (s : SpeedSettings R) × (speed_settings str cfg ≡ ok s)
            × InForce s (if b then (w, Reply.done) else r).0.bridge
      chosen true r k e = cc
      chosen false r k e = k
