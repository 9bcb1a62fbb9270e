-- ===== src/Node/Handover.antt =====
-- The configuration that nav2_wrapper/atlas_bridge.py accepts, handed over to nav2_wrapper/velocity_guard.py.
use service_navigation_rbnx.Base.{String, ◌≡◌, refl, sym, ◌∙◌, true, Option, some, ap}
use service_navigation_rbnx.Float.{Float, FloatLaws, ◌<?◌, whole}
use service_navigation_rbnx.Fallible.{ok}
use service_navigation_rbnx.Dict.{lookup}
use service_navigation_rbnx.Text.{strip}
use service_navigation_rbnx.Text.Strip.{strip-strip}
use service_navigation_rbnx.Value.{Value, Fields, end, get}
use service_navigation_rbnx.Topic.{accepted, validate_text, resolve_velocity_output_topic}
use service_navigation_rbnx.Topic.Grammar.{validate_text_iff, resolves_text}
use service_navigation_rbnx.Speed.Settings.{SpeedSettings, speed_settings}
use service_navigation_rbnx.Speed.Settings
use service_navigation_rbnx.Speed.Bounds.{IsValid, speed_settings_iff}
use service_navigation_rbnx.Node.Start.{
  Environ, updated, topic_of, number, number_from, limits_of, read_limits, new_node, start_node,
  setting, guard_variables,
}

-- A topic that was accepted is accepted again, and is the same.
accepted_again :
    (raw topic : String) → validate_text raw ≡ accepted topic → validate_text topic ≡ accepted topic
accepted_again raw topic h =
    let (same, spelled) = (validate_text_iff raw topic).0 h in
    (validate_text_iff topic topic).1
      (same ∙ (sym (strip-strip raw) ∙ ap strip (sym same)), spelled)

module _ {R : Type 0} ⦃fl : Float R⦄ (str : Value R → String) where
  -- The deployment's limits of the guard are numbers.
  pub record Readable (cfg : Fields R) (xy timeout no_progress spin_timeout spin_limit : R)
      : Type 0 where
    pub at_xy : fl.parse (setting str cfg "guard_terminal_xy_m" (fl.decimal 45 2)) ≡ some xy
    pub at_timeout : fl.parse (setting str cfg "guard_terminal_timeout_s" (whole 15)) ≡ some timeout
    pub at_no_progress :
        fl.parse (setting str cfg "guard_no_progress_s" (whole 3)) ≡ some no_progress
    pub at_spin_timeout :
        fl.parse (setting str cfg "guard_global_spin_timeout_s" (whole 25)) ≡ some spin_timeout
    pub at_spin_limit :
        fl.parse (setting str cfg "guard_global_spin_limit_rad" (fl.decimal 6_783_185_307 9))
        ≡ some spin_limit

  resolved_again :
      (environment : Option String) (cfg : Fields R) (topic : String)
      → resolve_velocity_output_topic str cfg environment ≡ accepted topic
      → resolve_velocity_output_topic str end (some topic) ≡ accepted topic
  unfolding resolve_velocity_output_topic get
  resolved_again environment cfg topic h =
      let (raw, from) = resolves_text str cfg environment in accepted_again raw topic (sym from ∙ h)

  -- Where the bridge accepts the output topic and the speed settings, where the guard's limits in the
  -- config are numbers, and where `float` reads back what `str` writes of the speed and the percentage, the guard
  -- that the bridge starts gets past its own tests: it publishes on the accepted topic, listens for limits
  -- on the channel that the bridge publishes on, and starts at the bridge's default.
  pub guard_accepts :
      FloatLaws R
      → (inherited : Environ) (environment : Option String) (cfg : Fields R) (topic : String)
      → (s : SpeedSettings R) (xy timeout no_progress spin_timeout spin_limit : R)
      → fl.parse (str (Value.number s.max_linear_speed_mps)) ≡ some s.max_linear_speed_mps
      → fl.parse (str (Value.number s.default_percentage)) ≡ some s.default_percentage
      → resolve_velocity_output_topic str cfg environment ≡ accepted topic
      → speed_settings str cfg ≡ Settings.ok s
      → Readable cfg xy timeout no_progress spin_timeout spin_limit
      → start_node str (updated (guard_variables str cfg s topic) inherited)
        ≡ ok (
          topic,
          "/robonix/navigation/speed_limit_guard",
          new_node
              (limits_of xy timeout no_progress spin_timeout spin_limit)
              s.max_linear_speed_mps
              s.default_percentage,
        )
  unfolding start_node updated guard_variables lookup number number_from read_limits topic_of
  guard_accepts laws inherited environment cfg topic s xy timeout no_progress spin_timeout
        spin_limit max_read default_read resolved configured limits =
      let valid : IsValid s = ((speed_settings_iff str cfg s).0 configured).1 in
      let positive : (whole 0 <? s.default_percentage) ≡ true =
        laws.lt_le_trans (whole 0) s.min_percentage s.default_percentage valid.min_positive
          valid.min_le_default in
      rw
        (
          resolved_again environment cfg topic resolved,
          max_read,
          default_read,
          valid.finite_max,
          valid.max_positive,
          positive,
          valid.default_le_hundred,
          limits.at_xy,
          limits.at_timeout,
          limits.at_no_progress,
          limits.at_spin_timeout,
          limits.at_spin_limit,
        )
        refl
