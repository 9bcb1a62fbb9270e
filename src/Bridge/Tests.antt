-- ===== src/Bridge/Tests.antt =====
-- Short interleavings over fixed-point numbers, and instances of the bridge's theorems.
use service_navigation_rbnx.Base.{ℕ, ◌≡◌, refl, none, some, true, false, [], ◌∷◌, ne_of_test}
use service_navigation_rbnx.Int.{ℤ, pos}
use service_navigation_rbnx.Fixed.{fixed, fixed_laws}
use service_navigation_rbnx.Text.{starts_with_slash}
use service_navigation_rbnx.Dict.{lookup, insert}
use service_navigation_rbnx.Speed.Settings.{SpeedSettings}
use service_navigation_rbnx.Speed.Decide.{
  SpeedDecision, decide_adjustment, decision, target_of, read_direction, slower, decide_explicit,
}
use service_navigation_rbnx.Speed.Bounds.{IsValid}
use service_navigation_rbnx.Speed.Range.{InRange, default-InRange}
use service_navigation_rbnx.Bridge.State.{
  running, canceled, Nav2Status, canonical_state, GoalState, SpeedState, Bridge, session,
  resolve_run_id,
}
use service_navigation_rbnx.Bridge.Runs.{navigate, cancel, entry, early_text, goal_refused}
use service_navigation_rbnx.Bridge.Limit.{
  delivered, relative, explicit, prepare, apply_speed_decision, publish_speed_limit, commit,
  change_speed, active_speed_run_id, decide, speed_mutation_failure,
}
use service_navigation_rbnx.Bridge.World.{
  World, Step, Reach, here, next, IsStart, submitting, after_cancel,
}
use service_navigation_rbnx.Bridge.World
use service_navigation_rbnx.Bridge.Cover.{CoveredIn}
use service_navigation_rbnx.Bridge.Scope.{owner_is_active}
use service_navigation_rbnx.Bridge.Interleaving.{ended_run_stays}
use service_navigation_rbnx.Bridge.Life.{Lives, phase, path_refines}
use service_navigation_rbnx.Bridge.Progress.{has_ended, run_can_end}
use service_navigation_rbnx.Bridge.Canceling.{cancel_before_answer}
use service_navigation_rbnx.Bridge.Change.{change_speed_accepted}
use service_navigation_rbnx.Bridge.Ranged.{Ranged, limits_stay_in_range}

abbrev settings : SpeedSettings ℤ
settings = record {
  max_linear_speed_mps = pos 300_000;
  default_percentage = pos 75_000_000;
  step_percentage = pos 20_000_000;
  min_percentage = pos 20_000_000;
  topic = "/speed_limit";
}

abbrev speed : SpeedState ℤ
speed = record {
  settings = some settings;
  percentage = pos 75_000_000;
  session_percentage = pos 75_000_000;
  scope = session;
  scope_run_id = "";
  subscriber_connected = true;
  nav2_limit = some (pos 75_000_000);
  guard_limit = some (pos 75_000_000);
}

abbrev bridge : Bridge ℤ ℕ
bridge = record {
  ros_ready = true;
  action_ready = true;
  initialized = true;
  goal_states = [];
  goal_handles = [];
  nav_queue = [];
  diagnostics = [];
  costmap = none;
  last_run_id = "";
  speed = speed;
}

-- The bridge before its first run.
abbrev idle : World ℤ ℕ
idle = record { bridge = bridge; stages = []; restores = []; committing = none }

idle-IsStart : IsStart idle
idle-IsStart = record {
  no_runs = refl;
  no_stages = refl;
  no_queue = refl;
  no_restores = refl;
  no_commit = refl;
  of_session = refl;
}

bridge_code : Unit {0}
unfolding navigate cancel lookup insert prepare change_speed apply_speed_decision
    publish_speed_limit commit speed_mutation_failure resolve_run_id active_speed_run_id decide
    decide_adjustment decide_explicit decision target_of read_direction
bridge_code = tt

-- The bridge with one run.
abbrev navigated : World ℤ ℕ
navigated = record idle { bridge = (navigate "r" bridge).0; stages = insert "r" submitting [] }

Reach-navigated : Reach idle navigated
unfolding bridge_code
Reach-navigated = next here (World.navigates "r" (ne_of_test "r" "" refl) refl refl refl)

-- The run asks for a slower speed.
abbrev slowed : SpeedDecision ℤ
slowed = decision (pos 75_000_000) (target_of slower (pos 75_000_000) settings) settings "slower"

abbrev prepared : World ℤ ℕ
prepared = record navigated { committing = some (slowed, "r", false) }

abbrev committed : World ℤ ℕ
committed = record prepared {
  bridge = (apply_speed_decision true delivered slowed "r" false prepared.bridge).0;
  committing = none;
}

Reach-committed : Reach idle committed
unfolding bridge_code
Reach-committed =
    next
      (next Reach-navigated
        (World.prepares true (relative "slower") "r" "r" false slowed refl refl))
      (World.commits true delivered slowed "r" false refl)

owner_is_active_example : CoveredIn committed "r"
unfolding bridge_code
owner_is_active_example = owner_is_active idle-IsStart Reach-committed refl

-- The run is canceled before it is dispatched.
abbrev ended : World ℤ ℕ
ended = record navigated {
  bridge = (cancel "r" navigated.bridge).0;
  restores = after_cancel (cancel "r" navigated.bridge).1 "r" navigated.restores;
}

Reach-ended : Reach idle ended
Reach-ended = next Reach-navigated (World.cancels "r")

-- Another cancel of the same run comes.
abbrev asked_again : World ℤ ℕ
asked_again = record ended {
  bridge = (cancel "r" ended.bridge).0;
  restores = after_cancel (cancel "r" ended.bridge).1 "r" ended.restores;
}

abbrev ended_entry : GoalState ℤ
ended_entry = record (entry canceled early_text) { cancel_requested = true }

ended_run_stays_example :
    (s' : GoalState ℤ) × (lookup "r" asked_again.bridge.goal_states ≡ some s')
    × (s'.state ≡ canceled)
unfolding bridge_code
ended_run_stays_example =
    ended_run_stays idle-IsStart Reach-ended (next here (World.cancels "r")) "r" ended_entry refl
      refl

settings-IsValid : IsValid settings
unfolding starts_with_slash
settings-IsValid = record {
  finite_max = refl;
  finite_default = refl;
  finite_step = refl;
  finite_min = refl;
  max_positive = refl;
  min_positive = refl;
  min_le_default = refl;
  default_le_hundred = refl;
  step_positive = refl;
  step_le_hundred = refl;
  absolute_topic = refl;
}

in_range : InRange settings (pos 75_000_000)
in_range = default-InRange fixed_laws settings settings-IsValid

idle-Ranged : Ranged settings idle
idle-Ranged = record {
  speed = record { settings = refl; percentage = in_range; session_percentage = in_range };
  decided = λ d owner persist c. cc;
}

limits_stay_in_range_example : Ranged settings committed
limits_stay_in_range_example =
    limits_stay_in_range fixed_laws settings settings-IsValid idle-Ranged Reach-committed

change_speed_accepted_example :
    ((change_speed true delivered (explicit (pos 50_000_000)) "" true bridge).0.speed.percentage
      ≡ pos 50_000_000)
    × ((change_speed true delivered (explicit (pos 50_000_000)) "" true bridge).0.speed.guard_limit
        ≡ some (pos 50_000_000))
unfolding bridge_code
change_speed_accepted_example = (
  (change_speed_accepted true delivered (explicit (pos 50_000_000)) "" true bridge refl).0,
  (change_speed_accepted true delivered (explicit (pos 50_000_000)) "" true bridge refl).2,
)

-- The run while it is being dispatched.
abbrev dispatching : GoalState ℤ
dispatching = entry running "dispatching goal"

abbrev busy : Bridge ℤ ℕ
busy = record bridge { goal_states = ("r", dispatching) ∷ [] }

cancel_before_answer_example :
    lookup "r" (goal_refused "goal rejected" "r" (cancel "r" busy).0).goal_states
    ≡ some (entry canceled "canceled before acceptance")
unfolding bridge_code
cancel_before_answer_example =
    (cancel_before_answer "r" "goal rejected" dispatching busy 7 refl refl).1

path_refines_example : Lives (phase {R = ℤ} [] "r") (phase navigated.bridge.goal_states "r")
path_refines_example = path_refines idle-IsStart here Reach-navigated "r"

run_can_end_example :
    (v : World ℤ ℕ) × Reach navigated v × (has_ended (phase v.bridge.goal_states "r") ≡ true)
unfolding bridge_code canonical_state
run_can_end_example =
    run_can_end "r" 0 Nav2Status.succeeded idle-IsStart Reach-navigated refl (λ e. cc) (λ e. cc)
