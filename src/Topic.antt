-- ===== src/Topic.antt =====
-- nav2_wrapper/configuration.py: the topics that a deployment configures.
pub mod Grammar
mod Tests
use service_navigation_rbnx.Base.{
  ℕ, String, Bool, true, false, not, ◌&&◌, ◌||◌, leb, ◌==◌, Option, none, some, List, [], ◌∷◌,
  if◌then◌else◌,
}
use service_navigation_rbnx.Text.{strip, codes, is_empty, starts_with_slash}
use service_navigation_rbnx.Value.{Value, Fields, null, get}

-- The errors of `validate_absolute_ros_topic`.
pub data TopicError : Type 0 where
  empty not_absolute not_valid : TopicError

pub data TopicResult : Type 0 where
  accepted : String → TopicResult
  rejected : TopicError → TopicResult

-- `[A-Za-z_]`
unfoldable pub is_first : ℕ → Bool
is_first c = leb b'A' c && leb c b'Z' || leb b'a' c && leb c b'z' || c == b'_'

-- `[A-Za-z0-9_]`
unfoldable pub is_name : ℕ → Bool
unfolding is_first
is_name c = is_first c || leb b'0' c && leb c b'9'

-- Where a match stands once it has read `c`: within a token or not, and `none` where it has failed.
unfoldable pub advance : Bool → ℕ → Option Bool
unfolding is_first is_name
advance true c = if is_name c then some true else if c == b'/' then some false else none
advance false c = if is_first c then some true else none

-- Whether the match goes on to the end, from within a token or not.
unfoldable pub matches_from : Bool → List ℕ → Bool
matches_from within [] = within
matches_from within (c ∷ s) = elim (advance within c) [
  | none ↦ false
  | some next ↦ matches_from next s
]

-- `re.fullmatch` of a slash and a token, and any number of further such pairs.
unfoldable pub full_match : List ℕ → Bool
unfolding matches_from
full_match [] = false
full_match (c ∷ s) = c == b'/' && matches_from false s

-- `validate_absolute_ros_topic` on the text of the value.
unfoldable pub validate_text : String → TopicResult
unfolding full_match
validate_text raw =
    let topic = strip raw in
    if is_empty topic
    then rejected empty
    else if not (starts_with_slash topic)
    then rejected not_absolute
    else if full_match (codes topic)
    then accepted topic
    else rejected not_valid

module _ {R : Type 0} (str : Value R → String) where
  -- `validate_absolute_ros_topic`; `str` is Python's.
  unfoldable pub validate_absolute_ros_topic : Value R → TopicResult
  unfolding validate_text
  validate_absolute_ros_topic null = validate_text ""
  validate_absolute_ros_topic (Value.text s) = validate_text s
  validate_absolute_ros_topic value = validate_text (str value)

  -- `resolve_velocity_output_topic`; the second argument is the environment's value, if any.
  unfoldable pub resolve_velocity_output_topic : Fields R → Option String → TopicResult
  unfolding validate_absolute_ros_topic
  resolve_velocity_output_topic cfg environment = elim (get cfg "velocity_output_topic") [
    | some value ↦ validate_absolute_ros_topic value
    | none ↦ elim environment [ some value ↦ validate_text value | none ↦ validate_text "/cmd_vel" ]
  ]

  -- `resolve_controller_velocity_output_topic`
  unfoldable pub resolve_controller_velocity_output_topic : Fields R → Option TopicResult
  unfolding validate_absolute_ros_topic
  resolve_controller_velocity_output_topic cfg = elim (get cfg "controller_velocity_output_topic") [
    | none ↦ none
    | some value ↦ some (validate_absolute_ros_topic value)
  ]
