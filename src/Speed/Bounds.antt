-- ===== src/Speed/Bounds.antt =====
-- Validated settings and the range of every decision.
use service_navigation_rbnx.Base.{String, true, false, ◌≡◌, ◌↔◌, none, some, arith}
use service_navigation_rbnx.Float.{Float, ◌<?◌, ◌≤?◌, whole}
use service_navigation_rbnx.Value.{Value, Fields, get, only_keys, to_float}
use service_navigation_rbnx.Text.{strip, starts_with_slash}
use service_navigation_rbnx.Speed.Settings.{
  SpeedSettings, ok, ◌>>=◌, allowed, err, speed_settings, read_settings, validate,
}

module _ {R : Type 0} ⦃fl : Float R⦄ where
  unfoldable pub default_settings : R → R → SpeedSettings R
  default_settings m d = record {
    max_linear_speed_mps = m;
    default_percentage = d;
    step_percentage = whole 20;
    min_percentage = whole 20;
    topic = "/speed_limit";
  }

  -- What the deployment policy promises of its settings.
  pub record IsValid (s : SpeedSettings R) : Type 0 where
    pub finite_max : fl.is_finite s.max_linear_speed_mps ≡ true
    pub finite_default : fl.is_finite s.default_percentage ≡ true
    pub finite_step : fl.is_finite s.step_percentage ≡ true
    pub finite_min : fl.is_finite s.min_percentage ≡ true
    pub max_positive : (s.max_linear_speed_mps ≤? whole 0) ≡ false
    pub min_positive : (whole 0 <? s.min_percentage) ≡ true
    pub min_le_default : (s.min_percentage ≤? s.default_percentage) ≡ true
    pub default_le_hundred : (s.default_percentage ≤? whole 100) ≡ true
    pub step_positive : (whole 0 <? s.step_percentage) ≡ true
    pub step_le_hundred : (s.step_percentage ≤? whole 100) ≡ true
    pub absolute_topic : starts_with_slash s.topic ≡ true

  validate_iff : (r s : SpeedSettings R) → (validate r ≡ ok s) ↔ (r ≡ s) × IsValid r
  unfolding validate
  validate_iff r s = (λ h. ground arith, λ h. ground arith)

  read_settings_defaults :
      (show : Value R → String) (cfg raw : Fields R) (m d : R)
      → get cfg "dynamic_speed" ≡ some (Value.mapping raw)
      → only_keys allowed raw ≡ true
      → get raw "max_linear_speed_mps" ≡ some (Value.number m)
      → get raw "default_percentage" ≡ some (Value.number d)
      → get raw "step_percentage" ≡ none
      → get raw "min_percentage" ≡ none
      → get raw "topic" ≡ none
      → read_settings show cfg ≡ ok (default_settings m d)
  unfolding read_settings to_float default_settings strip
  read_settings_defaults show cfg raw m d a b c e f g h = rw (a, b, c, e, f, g, h)

  pub speed_settings_iff :
      (show : Value R → String) (cfg : Fields R) (s : SpeedSettings R)
      → (speed_settings show cfg ≡ ok s) ↔ (read_settings show cfg ≡ ok s) × IsValid s
  unfolding speed_settings
  speed_settings_iff show cfg s =
      elim (read_settings show cfg) as (λ r. ((r >>= validate) ≡ ok s) ↔ (r ≡ ok s) × IsValid s) [
        | ok r ↦
            (λ h. ground (arith, (validate_iff r s).0 h), λ h. ground (arith, (validate_iff r s).1))
        | err e ↦ (λ h. cc, λ h. cc h.0)
      ]

  -- A mapping that gives just the two required numbers is read with the default step and minimum of
  -- 20 and the default topic, and is accepted exactly when the settings that result meet the policy.
  pub speed_settings_defaults :
      (show : Value R → String) (cfg raw : Fields R) (m d : R)
      → get cfg "dynamic_speed" ≡ some (Value.mapping raw)
      → only_keys allowed raw ≡ true
      → get raw "max_linear_speed_mps" ≡ some (Value.number m)
      → get raw "default_percentage" ≡ some (Value.number d)
      → get raw "step_percentage" ≡ none
      → get raw "min_percentage" ≡ none
      → get raw "topic" ≡ none
      → (speed_settings show cfg ≡ ok (default_settings m d)) ↔ IsValid (default_settings m d)
  speed_settings_defaults show cfg raw m d a b c e f g h = (
    λ k. ((speed_settings_iff show cfg _).0 k).1,
    λ v. (speed_settings_iff show cfg _).1 (read, v),
  )
    where
      read : read_settings show cfg ≡ ok (default_settings m d)
      read = read_settings_defaults show cfg raw m d a b c e f g h
