-- ===== src/Speed/Settings.antt =====
-- `SpeedSettings` and `speed_settings`: the deploy-owned policy and its validation.
use service_navigation_rbnx.Base.{
  String, Bool, true, false, Option, none, some, not, ◌&&◌, List, [], ◌∷◌, is_some,
}
use service_navigation_rbnx.Float.{Float, ◌<?◌, ◌≤?◌, whole}
use service_navigation_rbnx.Text.{strip, starts_with_slash}
use service_navigation_rbnx.Value.{Value, Fields, get, only_keys, to_float}

pub record SpeedSettings (R : Type 0) : Type 0 where
  pub max_linear_speed_mps : R
  pub default_percentage : R
  pub step_percentage : R
  pub min_percentage : R
  pub topic : String

-- One constructor for each place that raises.
pub data SpeedError : Type 0 where
  not_a_mapping unknown_field missing_field bad_number not_finite : SpeedError
  bad_maximum bad_percentages bad_step bad_topic : SpeedError
  bad_direction bad_percentage : SpeedError

pub data Result (A : Type 0) : Type 0 where
  ok : A → Result A
  err : SpeedError → Result A

infixl 5 ◌>>=◌ ◌>>◌
abbrev pub ◌>>=◌ : {A B : Type 0} → Result A → (A → Result B) → Result B
ok a >>= f = f a
err e >>= f = err e

abbrev pub ◌>>◌ : {B : Type 0} → Result (Unit {0}) → Result B → Result B
m >> k = m >>= λ _. k

-- `if not test: raise error`
abbrev pub check : Bool → SpeedError → Result (Unit {0})
check true e = ok tt
check false e = err e

abbrev or_raise : {A : Type 0} → Option A → SpeedError → Result A
or_raise none e = err e
or_raise (some a) e = ok a

abbrev pub allowed : List String
allowed =
    "max_linear_speed_mps" ∷ "default_percentage" ∷ "step_percentage" ∷ "min_percentage" ∷ "topic"
    ∷ []

-- `isinstance(raw, dict)` on `cfg.get("dynamic_speed")`
as_mapping : {R : Type 0} → Option (Value R) → Result (Fields R)
as_mapping (some (Value.mapping d)) = ok d
as_mapping _ = err not_a_mapping

-- `str(raw.get("topic", "/speed_limit"))`
topic_text : {R : Type 0} → (Value R → String) → Option (Value R) → String
topic_text show none = "/speed_limit"
topic_text show (some (Value.text s)) = s
topic_text show (some v) = show v

module _ {R : Type 0} ⦃fl : Float R⦄ where
  -- `float(raw.get(key, default))`
  number_or : R → Option (Value R) → Result R
  number_or default none = ok default
  number_or default (some v) = or_raise (to_float v) bad_number

  -- `float(raw[key])`, where the key has been found present
  required : Option (Value R) → Result R
  required none = err missing_field
  required (some v) = or_raise (to_float v) bad_number

  -- `not all(math.isfinite(value) for value in values)` and the order tests that follow
  unfoldable pub validate : SpeedSettings R → Result (SpeedSettings R)
  validate s = do
    check
        (fl.is_finite s.max_linear_speed_mps
          && (fl.is_finite s.default_percentage
              && (fl.is_finite s.step_percentage && fl.is_finite s.min_percentage)))
        not_finite
    check (not (s.max_linear_speed_mps ≤? whole 0)) bad_maximum
    check
        ((whole 0 <? s.min_percentage)
          && ((s.min_percentage ≤? s.default_percentage) && (s.default_percentage ≤? whole 100)))
        bad_percentages
    check ((whole 0 <? s.step_percentage) && (s.step_percentage ≤? whole 100)) bad_step
    check (starts_with_slash s.topic) bad_topic
    ok s

  -- The reading part of `speed_settings`; `show` is `str` on a value that is not a text.
  unfoldable pub read_settings : (Value R → String) → Fields R → Result (SpeedSettings R)
  unfolding required number_or topic_text as_mapping
  read_settings show cfg = do
    raw ← as_mapping (get cfg "dynamic_speed")
    check (only_keys allowed raw) unknown_field
    check (is_some (get raw "max_linear_speed_mps") && is_some (get raw "default_percentage"))
        missing_field
    maximum ← required (get raw "max_linear_speed_mps")
    default ← required (get raw "default_percentage")
    step ← number_or (whole 20) (get raw "step_percentage")
    minimum ← number_or (whole 20) (get raw "min_percentage")
    ok (record {
      max_linear_speed_mps = maximum;
      default_percentage = default;
      step_percentage = step;
      min_percentage = minimum;
      topic = strip (topic_text show (get raw "topic"));
    })

  unfoldable pub speed_settings : (Value R → String) → Fields R → Result (SpeedSettings R)
  speed_settings show cfg = read_settings show cfg >>= validate
