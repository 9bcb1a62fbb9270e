-- ===== src/Lifecycle/Init.antt =====
-- `init` and `shutdown` of nav2_wrapper/atlas_bridge.py: the start-up on the driver's command, and the end.
-- The texts of the errors leave out the values that they name.
use Prim.Native.String.{◌++◌}
use service_navigation_rbnx.Base.{
  String, Bool, true, false, not, ◌||◌, Option, none, some, List, [], ◌∷◌, if◌then◌else◌,
}
use service_navigation_rbnx.Float.{Float, min, whole}
use service_navigation_rbnx.Replace.{Code}
use service_navigation_rbnx.Value.{Value, Fields, get, to_float}
use service_navigation_rbnx.Topic.{
  TopicResult, accepted, rejected, resolve_velocity_output_topic, validate_text,
}
use service_navigation_rbnx.Speed.Settings.{SpeedSettings, Result, ok, err, speed_settings}
use service_navigation_rbnx.Bridge.State.{session, SpeedState, Bridge}
use service_navigation_rbnx.Bridge.Runs.{Outcome, raised, returned}
use service_navigation_rbnx.Bridge.Limit.{Publish, publish_speed_limit}
use service_navigation_rbnx.Lifecycle.Discovery.{build_remap_args}
use service_navigation_rbnx.Lifecycle.Scan.{prepare_scan}
use service_navigation_rbnx.Lifecycle.Spawn.{Surroundings, body, spawn_nav2}
use service_navigation_rbnx.Lifecycle.Process.{Host, kill_nav2, Action, ◌>>=◌}

-- What `init` returns, or that it raises.
pub data Reply : Type 0 where
  done : Reply
  failed : String → Reply
  deferred : List String → Reply
  uncaught : Reply

-- The processes and the state of the handlers.
pub record Wrapper (R H : Type 0) : Type 0 where
  pub host : Host
  pub bridge : Bridge R H

-- What the two loops that wait return for their timeouts, and how the first limit is published.
pub record Waits (R : Type 0) : Type 0 where
  pub action_up : R → Bool
  pub subscribed : R → Bool
  pub publish : Publish

module _ {R : Type 0} ⦃fl : Float R⦄ where
  -- The speed limit of a new session.
  unfoldable pub reset_speed : SpeedSettings R → SpeedState R → SpeedState R
  reset_speed s p = record p {
    settings = some s;
    percentage = s.default_percentage;
    session_percentage = s.default_percentage;
    scope = session;
    scope_run_id = "";
    subscriber_connected = false;
  }

  -- `float(cfg.get("action_wait_s", 45.0))`
  unfoldable pub action_wait : Option (Value R) → Option R
  action_wait none = some (whole 45)
  action_wait (some v) = to_float v

module _ {R H : Type 0} ⦃fl : Float R⦄ where
  -- `_kill_nav2()` and `return Err(…)`
  abbrev pub give_up : Host → Bridge R H → String → Wrapper R H × Reply
  give_up h b why = (record { host = kill_nav2 h; bridge = b }, Reply.failed why)

  -- Both channels have a subscriber: the first limit, and the end of the start-up.
  unfoldable pub apply_first : Publish → Host → Bridge R H → Wrapper R H × Reply
  apply_first publish h b =
      let (sent, error) = publish_speed_limit publish b.speed.percentage b.speed in
      elim error [
        | some e ↦
            give_up h (record b { speed = sent })
              ("failed to apply initial navigation speed: " ++ e)
        | none ↦ (
          record {
            host = h;
            bridge = record b {
              speed = record sent { subscriber_connected = true };
              initialized = true;
            };
          },
          Reply.done,
        )
      ]

  -- The part of `init` after the processes are started.
  unfoldable pub wait_ready : R → Waits R → Host → Bridge R H → Wrapper R H × Reply
  unfolding apply_first
  wait_ready timeout waits h b =
      let up = record b {
        ros_ready = true;
        action_ready = b.action_ready || waits.action_up timeout;
      } in
      if not (waits.action_up timeout)
      then give_up h up "navigate_to_pose action server did not come up"
      else if not (waits.subscribed (min timeout (whole 10)))
      then give_up h up "Nav2 controller or final velocity guard did not subscribe"
      else apply_first waits.publish h up

  -- What follows `_spawn_nav2`.
  unfoldable pub after_spawn : R → Waits R → Bridge R H → Host × Outcome Code → Wrapper R H × Reply
  unfolding wait_ready
  after_spawn timeout waits b (h, raised e) = give_up h b ("spawn nav2 failed: " ++ e)
  after_spawn timeout waits b (h, returned launch) = wait_ready timeout waits h b

module _ {R : Type 0} ⦃fl : Float R⦄ (str : Value R → String) (around : Surroundings R) where
  -- The processes of the wrapper.
  unfoldable pub spawn_all : Fields R → List Code → Action Code
  unfolding prepare_scan
  spawn_all cfg remaps = do
    bindings ← prepare_scan str cfg (body str around) around.scan remaps
    spawn_nav2 str around cfg true bindings

module _ {R H : Type 0} ⦃fl : Float R⦄ (str : Value R → String) (around : Surroundings R) where
  -- What follows `_build_remap_args`.
  unfoldable pub after_remaps :
      R
      → Fields R
      → Waits R
      → Host
      → Bridge R H
      → Outcome (List Code × List String)
      → Wrapper R H × Reply
  unfolding after_spawn spawn_all
  after_remaps timeout cfg waits h b (raised e) = (record { host = h; bridge = b }, Reply.uncaught)
  after_remaps timeout cfg waits h b (returned (remaps, c ∷ cs)) =
      (record { host = h; bridge = b }, Reply.deferred (c ∷ cs))
  after_remaps timeout cfg waits h b (returned (remaps, [])) =
      after_spawn timeout waits b (spawn_all str around cfg remaps h)

  -- What follows `action_wait`.
  unfoldable pub after_wait :
      Option R → Fields R → Waits R → Host → Bridge R H → Wrapper R H × Reply
  unfolding after_remaps
  after_wait none cfg waits h b = (record { host = h; bridge = b }, Reply.uncaught)
  after_wait (some timeout) cfg waits h b =
      after_remaps timeout cfg waits h b (build_remap_args str around.resolve cfg)

  -- What follows the tests of the two topics and of the speed settings, on their results.
  unfoldable pub after_tests :
      TopicResult
      → Result (SpeedSettings R)
      → Fields R
      → Waits R
      → Wrapper R H
      → Wrapper R H × Reply
  unfolding action_wait after_wait reset_speed
  after_tests (rejected e) settings cfg waits w = (w, Reply.failed "invalid velocity_output_topic")
  after_tests (accepted topic) (err e) cfg waits w =
      (w, Reply.failed "invalid dynamic_speed config")
  after_tests (accepted topic) (ok s) cfg waits w = elim (validate_text s.topic) [
    | rejected e ↦ (w, Reply.failed "invalid dynamic_speed config")
    | accepted t ↦
        after_wait (action_wait (get cfg "action_wait_s")) cfg waits w.host
          (record w.bridge { speed = reset_speed s w.bridge.speed })
  ]

  -- `init`
  unfoldable pub init : Fields R → Waits R → Wrapper R H → Wrapper R H × Reply
  unfolding after_tests
  init cfg waits w =
      let start =
        after_tests (resolve_velocity_output_topic str cfg around.topic_environment)
          (speed_settings str cfg) cfg waits w in
      if w.bridge.initialized then (w, Reply.done) else start

-- `shutdown`
unfoldable pub shutdown : {R H : Type 0} → Wrapper R H → Wrapper R H × Reply
unfolding kill_nav2
shutdown w = (record w { host = kill_nav2 w.host }, Reply.done)
