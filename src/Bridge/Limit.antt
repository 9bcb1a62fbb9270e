-- ===== src/Bridge/Limit.antt =====
-- The speed-limit handlers of nav2_wrapper/atlas_bridge.py, over the state that `_speed_lock` guards.
use service_navigation_rbnx.Base.{
  String, Bool, true, false, ◌&&◌, not, Option, none, some, ◌=?◌, if◌then◌else◌,
}
use Prim.Native.String.{◌++◌}
use service_navigation_rbnx.Float.{Float, ◌⊗◌, ◌⊘◌, whole}
use service_navigation_rbnx.Dict.{lookup}
use service_navigation_rbnx.Speed.Settings.{
  SpeedSettings, SpeedError, not_finite, bad_percentage, Result, ok, err,
}
use service_navigation_rbnx.Speed.Decide.{SpeedDecision, decide_adjustment, decide_explicit}
use service_navigation_rbnx.Bridge.State.{
  lower_name, is_active, Scope, session, goal, SpeedState, Bridge, resolve_run_id,
}
use service_navigation_rbnx.Bridge.Runs.{Outcome, raised, returned}

-- What the two `publish` calls of `_publish_speed_limit` do: both go through, the second raises, or
-- nothing is sent (a publisher is missing, or the first raises).
pub data Publish : Type 0 where
  delivered : Publish
  nav2_only : String → Publish
  unsent : String → Publish

-- The limit that a mutation asks for: `direction` or `percentage`.
pub data Request (R : Type 0) : Type 0 where
  relative : String → Request R
  explicit : R → Request R

pub record SpeedResponse (R : Type 0) : Type 0 where
  pub accepted : Bool
  pub changed : Bool
  pub effective_percentage : R
  pub effective_linear_speed_mps : R
  pub scope : Option Scope
  pub run_id : String
  pub detail : String

pub record LimitStatus (R : Type 0) : Type 0 where
  pub available : Bool
  pub max_linear_speed_mps : R
  pub default_percentage : R
  pub min_percentage : R
  pub step_percentage : R
  pub effective_percentage : R
  pub effective_linear_speed_mps : R
  pub scope : Option Scope
  pub run_id : String
  pub detail : String

module _ {R : Type 0} where
  -- `_publish_speed_limit(percentage)`, with the exception's text.
  unfoldable pub publish_speed_limit : Publish → R → SpeedState R → SpeedState R × Option String
  publish_speed_limit delivered p s = (record s { nav2_limit = some p; guard_limit = some p }, none)
  publish_speed_limit (nav2_only error) p s = (record s { nav2_limit = some p }, some error)
  publish_speed_limit (unsent error) p s = (s, some error)

  -- `_refresh_speed_subscriber`; `connected` is `none` where there is no publisher.
  unfoldable pub refresh_speed_subscriber : Option Bool → Publish → SpeedState R → SpeedState R
  unfolding publish_speed_limit
  refresh_speed_subscriber none outcome s = s
  refresh_speed_subscriber (some false) outcome s = record s { subscriber_connected = false }
  refresh_speed_subscriber (some true) outcome s =
      let (s', error) = publish_speed_limit outcome s.percentage s in
      if s.subscriber_connected
      then s
      else elim error [ none ↦ record s' { subscriber_connected = true } | some e ↦ s' ]

  -- `_restore_speed_after_run`
  owns : String → SpeedState R → Bool
  owns run_id s = elim s.scope [ session ↦ false | goal ↦ s.scope_run_id =? run_id ]

  unfoldable pub restore_speed_after_run : Publish → String → SpeedState R → SpeedState R
  unfolding publish_speed_limit owns
  restore_speed_after_run outcome run_id s =
      let back = record s {
        percentage = s.session_percentage;
        scope = session;
        scope_run_id = "";
      } in
      let (sent, error) = publish_speed_limit outcome s.session_percentage back in
      if owns run_id s
      then elim error [ none ↦ sent | some e ↦ record sent { subscriber_connected = false } ]
      else s

  -- The state that an accepted decision commits.
  unfoldable pub commit : SpeedDecision R → String → Bool → SpeedState R → SpeedState R
  commit decision run_id persist s =
      if persist
      then record s {
        percentage = decision.percentage;
        session_percentage = decision.percentage;
        scope = session;
        scope_run_id = "";
      }
      else record s { percentage = decision.percentage; scope = goal; scope_run_id = run_id }

module _ {R H : Type 0} where
  -- `_active_speed_run_id`
  unfoldable pub active_speed_run_id : String → Bridge R H → Outcome String
  active_speed_run_id run_id b =
      let resolved = resolve_run_id run_id b in
      elim (lookup resolved b.goal_states) [
        | none ↦ raised "unknown run_id"
        | some s ↦
            if is_active s.state
            then returned resolved
            else raised ("run is already " ++ lower_name s.state)
      ]

module _ {R : Type 0} ⦃fl : Float R⦄ where
  -- `str(error)` of the errors that a decision raises.
  message : SpeedSettings R → SpeedError → String
  message s not_finite = "percentage must be finite"
  message s bad_percentage =
      "percentage must be between " ++ fl.format_g s.min_percentage ++ " and 100"
  message s _ = "direction must be faster, slower, or normal"

  unfoldable pub decide : Request R → R → SpeedSettings R → Result (SpeedDecision R)
  decide (relative direction) current s = decide_adjustment current direction s
  decide (explicit percentage) current s = decide_explicit current percentage s

  -- The effective linear speed that `_get_speed_limit_impl` reports.
  unfoldable pub linear_speed : SpeedSettings R → R → R
  linear_speed s percentage = s.max_linear_speed_mps ⊗ percentage ⊘ whole 100

module _ {R H : Type 0} ⦃fl : Float R⦄ where
  -- `_get_speed_limit_impl`; `channels` is `_speed_channels_available()`.
  unfoldable pub get_speed_limit : Bool → Bridge R H → LimitStatus R
  unfolding linear_speed
  get_speed_limit channels b = elim b.speed.settings [
    | none ↦ record {
      available = false;
      max_linear_speed_mps = whole 0;
      default_percentage = whole 0;
      min_percentage = whole 0;
      step_percentage = whole 0;
      effective_percentage = whole 0;
      effective_linear_speed_mps = whole 0;
      scope = none;
      run_id = "";
      detail = "dynamic speed settings are unavailable";
    }
    | some s ↦ record {
      available = b.initialized && channels;
      max_linear_speed_mps = s.max_linear_speed_mps;
      default_percentage = s.default_percentage;
      min_percentage = s.min_percentage;
      step_percentage = s.step_percentage;
      effective_percentage = b.speed.percentage;
      effective_linear_speed_mps = linear_speed s b.speed.percentage;
      scope = some b.speed.scope;
      run_id = b.speed.scope_run_id;
      detail =
          if b.initialized && channels
          then "navigation speed limit is available"
          else "Nav2 or final-guard speed-limit subscriber is unavailable";
    }
  ]

  -- `_speed_mutation_failure`
  unfoldable pub speed_mutation_failure : Bool → String → Bridge R H → SpeedResponse R
  unfolding get_speed_limit
  speed_mutation_failure channels detail b =
      let status = get_speed_limit channels b in
      record {
        accepted = false;
        changed = false;
        effective_percentage = status.effective_percentage;
        effective_linear_speed_mps = status.effective_linear_speed_mps;
        scope = status.scope;
        run_id = status.run_id;
        detail = detail;
      }

  -- `_apply_speed_decision` and the handler around it.
  unfoldable pub apply_speed_decision :
      Bool → Publish → SpeedDecision R → String → Bool → Bridge R H → Bridge R H × SpeedResponse R
  unfolding publish_speed_limit commit
  apply_speed_decision channels outcome decision run_id persist b =
      let (sent, error) = publish_speed_limit outcome decision.percentage b.speed in
      elim error [
        | some e ↦ (
          record b { speed = sent },
          speed_mutation_failure channels e (record b { speed = sent }),
        )
        | none ↦
            let s' = commit decision run_id persist sent in
            (
              record b { speed = s' },
              record {
                accepted = true;
                changed = decision.changed;
                effective_percentage = decision.percentage;
                effective_linear_speed_mps = decision.linear_speed_mps;
                scope = some s'.scope;
                run_id = s'.scope_run_id;
                detail = decision.detail;
              },
            )
      ]

  -- What `_adjust_speed_impl` and `_set_speed_limit_impl` settle before they publish: the run that is
  -- to own the limit, and the decision.
  unfoldable pub prepare :
      Bool → Request R → String → Bool → Bridge R H → Outcome (String × SpeedDecision R)
  unfolding decide message
  prepare channels request run_id persist b =
      if not b.initialized
      then raised "navigation is not initialized"
      else if not channels
      then raised "Nav2 or final-guard speed-limit subscriber is unavailable"
      else elim b.speed.settings [
        | none ↦ raised "dynamic speed settings are unavailable"
        | some s ↦ elim (if persist then returned "" else active_speed_run_id run_id b) [
          | raised e ↦ raised e
          | returned resolved ↦ elim (decide request b.speed.percentage s) [
            | ok d ↦ returned (resolved, d)
            | err e ↦ raised (message s e)
          ]
        ]
      ]

  -- `_adjust_speed_impl` on a relative and `_set_speed_limit_impl` on an explicit request.
  unfoldable pub change_speed :
      Bool → Publish → Request R → String → Bool → Bridge R H → Bridge R H × SpeedResponse R
  change_speed channels outcome request run_id persist b =
      elim (prepare channels request run_id persist b) [
        | raised e ↦ (b, speed_mutation_failure channels e b)
        | returned (resolved, d) ↦ apply_speed_decision channels outcome d resolved persist b
      ]
