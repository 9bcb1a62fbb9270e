-- ===== src/Topic/Grammar.antt =====
-- The grammar of absolute topics, against the matcher of nav2_wrapper/configuration.py.
use mathlib.Core.List.{◌++◌}
use service_navigation_rbnx.Base.{
  ℕ, String, Bool, true, false, ◌≡◌, ◌↔◌, refl, Option, none, some, List, [], ◌∷◌, arith, All, ◌⊎◌,
  inl, inr, ap, sym, ◌∙◌, Option-cases,
}
use service_navigation_rbnx.Topic.{
  is_first, is_name, advance, matches_from, full_match, accepted, validate_text,
  validate_absolute_ros_topic, resolve_velocity_output_topic,
}
use service_navigation_rbnx.Value.{Value, Fields, get}
use service_navigation_rbnx.Text.{strip, codes, is_empty, starts_with_slash}

-- A letter or underscore, and then letters, digits and underscores.
abbrev pub IsToken : List ℕ → Type 0
IsToken [] = ⊥
IsToken (c ∷ cs) = (is_first c ≡ true) × All (λ d. is_name d ≡ true) cs

-- Each token behind a slash.
unfoldable pub spell : List (List ℕ) → List ℕ
spell [] = []
spell (t ∷ ts) = b'/' ∷ t ++ spell ts

-- What the rest of a match spells: the end of a token, or a whole one, and then further tokens.
abbrev Spells : Bool → List ℕ → Type 0
Spells true s =
    (cs : List ℕ) × (ts : List (List ℕ)) × All (λ d. is_name d ≡ true) cs
    × All IsToken ts
    × (s ≡ cs ++ spell ts)
Spells false s =
    (cs : List ℕ) × (ts : List (List ℕ)) × IsToken cs × All IsToken ts × (s ≡ cs ++ spell ts)

advance_name : (c : ℕ) → is_name c ≡ true → advance true c ≡ some true
unfolding advance
advance_name c h = ground arith

advance_slash : advance true b'/' ≡ some false
unfolding advance
advance_slash = refl

advance_first : (c : ℕ) → is_first c ≡ true → advance false c ≡ some true
unfolding advance
advance_first c h = ground arith

matches-spell :
    (ts : List (List ℕ)) (cs : List ℕ)
    → All (λ d. is_name d ≡ true) cs
    → All IsToken ts
    → matches_from true (cs ++ spell ts) ≡ true
unfolding matches_from spell
matches-spell [] [] h k = refl
matches-spell ([] ∷ ts) [] h k = absurd k.0
matches-spell ((c ∷ t) ∷ ts) [] h ((first, names), k) =
    let rest = matches-spell ts t names k in
    rw (advance_slash, advance_first c first, matches_from) rest
matches-spell ts (c ∷ cs) (name, h) k =
    let rest = matches-spell ts cs h k in rw (advance_name c name, matches_from) rest

name_or_slash :
    (c : ℕ) (s : List ℕ)
    → matches_from true (c ∷ s) ≡ true
    → ((is_name c ≡ true) × (matches_from true s ≡ true))
      ⊎ ((c ≡ b'/') × (matches_from false s ≡ true))
unfolding matches_from advance
name_or_slash c s h = ground arith

first_of :
    (c : ℕ) (s : List ℕ)
    → matches_from false (c ∷ s) ≡ true
    → (is_first c ≡ true) × (matches_from true s ≡ true)
unfolding matches_from advance
first_of c s h = ground arith

Spells-of : (within : Bool) (s : List ℕ) → matches_from within s ≡ true → Spells within s
unfolding matches_from spell
Spells-of true [] h = ([], [], tt, tt, refl)
Spells-of false [] h = cc
Spells-of true (c ∷ s) h = elim (name_or_slash c s h) [
  | inl (name, k) ↦
      let (cs, ts, names, tokens, same) = Spells-of true s k in
      (c ∷ cs, ts, (name, names), tokens, ap (λ r. c ∷ r) same)
  | inr (slash, k) ↦
      let (t, ts, token, tokens, same) = Spells-of false s k in
      ([], t ∷ ts, tt, (token, tokens), rw (slash, same) refl)
]
Spells-of false (c ∷ s) h =
    let (first, k) = first_of c s h in
    let (cs, ts, names, tokens, same) = Spells-of true s k in
    (c ∷ cs, ts, (first, names), tokens, ap (λ r. c ∷ r) same)

-- The text is spelled by one or more tokens, each behind a slash.
abbrev pub IsTopic : List ℕ → Type 0
IsTopic s = (t : List ℕ) × (ts : List (List ℕ)) × IsToken t × All IsToken ts × (s ≡ spell (t ∷ ts))

full_match-spell :
    (t : List ℕ) (ts : List (List ℕ))
    → IsToken t
    → All IsToken ts
    → full_match (spell (t ∷ ts)) ≡ true
unfolding full_match spell
full_match-spell [] ts token tokens = absurd token
full_match-spell (c ∷ cs) ts (first, names) tokens =
    let rest : matches_from true (cs ++ spell ts) ≡ true = matches-spell ts cs names tokens in
    rw (advance_first c first, matches_from) rest

full_match-IsTopic : (s : List ℕ) → full_match s ≡ true → IsTopic s
unfolding full_match spell
full_match-IsTopic [] h = cc
full_match-IsTopic (c ∷ s) h =
    let (slash, k) : (c ≡ b'/') × (matches_from false s ≡ true) = ground arith in
    let (t, ts, token, tokens, same) = Spells-of false s k in
    (t, ts, token, tokens, rw (slash, same) refl)

-- The matcher accepts a text exactly when one or more tokens, each behind a slash, spell it: a token is
-- a letter or an underscore, and then letters, digits and underscores.
pub full_match_iff : (s : List ℕ) → (full_match s ≡ true) ↔ IsTopic s
full_match_iff s = (
  full_match-IsTopic s,
  λ (t, ts, token, tokens, same). rw same (full_match-spell t ts token tokens),
)

match_starts :
    (s : String) → full_match (codes s) ≡ true → (is_empty s ≡ false) × (starts_with_slash s ≡ true)
unfolding full_match codes starts_with_slash
match_starts String.[] h = cc
match_starts (String.◌∷◌ c s) h = (refl, ground arith)

accepted_matches :
    (raw topic : String)
    → validate_text raw ≡ accepted topic
    → (topic ≡ strip raw) × (full_match (codes topic) ≡ true)
unfolding validate_text
accepted_matches raw topic h = ground arith

match_accepted :
    (raw topic : String)
    → topic ≡ strip raw
    → full_match (codes topic) ≡ true
    → validate_text raw ≡ accepted topic
unfolding validate_text
match_accepted raw topic same h = ground (arith, match_starts topic h)

-- A text is accepted as a topic exactly when, stripped of white space, it is spelled by tokens behind
-- slashes, and the topic is then the stripped text.
pub validate_text_iff :
    (raw topic : String)
    → (validate_text raw ≡ accepted topic) ↔ ((topic ≡ strip raw) × IsTopic (codes topic))
validate_text_iff raw topic = (
  λ h.
      let (same, found) = accepted_matches raw topic h in
      (same, full_match-IsTopic (codes topic) found),
  λ h. match_accepted raw topic h.0 ((full_match_iff (codes topic)).1 h.1),
)

module _ {R : Type 0} (str : Value R → String) where
  validates_text :
      (value : Value R)
      → (raw : String) × (validate_absolute_ros_topic str value ≡ validate_text raw)
  unfolding validate_absolute_ros_topic
  validates_text Value.null = ("", refl)
  validates_text (Value.boolean b) = (str (Value.boolean b), refl)
  validates_text (Value.number x) = (str (Value.number x), refl)
  validates_text (Value.text s) = (s, refl)
  validates_text (Value.items any) = (str (Value.items any), refl)
  validates_text (Value.mapping d) = (str (Value.mapping d), refl)

  pub resolves_text :
      (cfg : Fields R) (environment : Option String)
      → (raw : String) × (resolve_velocity_output_topic str cfg environment ≡ validate_text raw)
  unfolding resolve_velocity_output_topic
  resolves_text cfg environment = elim (Option-cases (get cfg "velocity_output_topic")) [
    | inr (value, found) ↦
        let (raw, same) = validates_text value in
        (raw, rw (found, resolve_velocity_output_topic) same)
    | inl missing ↦ from_environment environment missing
  ]
    where
      from_environment :
          (environment : Option String)
          → get cfg "velocity_output_topic" ≡ none
          → (raw : String) × (resolve_velocity_output_topic str cfg environment ≡ validate_text raw)
      from_environment none missing = ("/cmd_vel", rw (missing, resolve_velocity_output_topic) refl)
      from_environment (some value) missing =
          (value, rw (missing, resolve_velocity_output_topic) refl)

  -- Whatever the config and the environment say, the guard's output topic, if one is resolved, is
  -- spelled by tokens behind slashes.
  resolve_velocity_output_topic-IsTopic :
      (cfg : Fields R) (environment : Option String) (topic : String)
      → resolve_velocity_output_topic str cfg environment ≡ accepted topic
      → IsTopic (codes topic)
  resolve_velocity_output_topic-IsTopic cfg environment topic h =
      let (raw, from) = resolves_text cfg environment in
      ((validate_text_iff raw topic).0 (sym from ∙ h)).1
