-- ===== src/Value.antt =====
-- A deployment config as Python receives it: what a YAML or JSON document parses to. A mapping lists
-- its keys in order, each once; of a list only whether it has items is kept, as nothing else is looked at.
use service_navigation_rbnx.Base.{
  String, Bool, true, false, Option, none, some, ◌=?◌, ◌||◌, ◌&&◌, List, [], ◌∷◌, if◌then◌else◌,
  not,
}
use service_navigation_rbnx.Text.{is_empty}
use service_navigation_rbnx.Float.{Float, whole}

mutual
  pub data Value (R : Type 0) : Type 0 where
    null : Value R
    boolean : Bool → Value R
    number : R → Value R
    text : String → Value R
    items : Bool → Value R
    mapping : Fields R → Value R

  pub data Fields (R : Type 0) : Type 0 where
    end : Fields R
    field : String → Value R → Fields R → Fields R

module _ {R : Type 0} where
  -- `cfg.get(key)`, with `none` for a missing key.
  unfoldable pub get : Fields R → String → Option (Value R)
  get end k = none
  get (field j v d) k = if j =? k then some v else get d k

-- `key in keys`
unfoldable pub contains : List String → String → Bool
contains [] k = false
contains (x ∷ xs) k = x =? k || contains xs k

module _ {R : Type 0} where
  -- `not set(raw) - allowed`
  unfoldable pub only_keys : List String → Fields R → Bool
  unfolding contains
  only_keys allowed end = true
  only_keys allowed (field k v d) = contains allowed k && only_keys allowed d

module _ {R : Type 0} ⦃fl : Float R⦄ where
  -- `float(v)`; `none` where it raises `TypeError` or `ValueError`.
  unfoldable pub to_float : Value R → Option R
  to_float (boolean true) = some (whole 1)
  to_float (boolean false) = some (whole 0)
  to_float (number x) = some x
  to_float (text s) = fl.parse s
  to_float null = none
  to_float (items some_) = none
  to_float (mapping d) = none

  -- `bool(v)`
  unfoldable pub truth : Value R → Bool
  truth null = false
  truth (boolean b) = b
  truth (number x) = not (fl.eq x (whole 0))
  truth (text s) = not (is_empty s)
  truth (items any) = any
  truth (mapping end) = false
  truth (mapping (field k v d)) = true

module _ {R : Type 0} (str : Value R → String) where
  -- `str(v)`, where `str` is Python's on what is no text.
  unfoldable pub text_of : Value R → String
  text_of (text s) = s
  text_of null = str null
  text_of (boolean b) = str (boolean b)
  text_of (number x) = str (number x)
  text_of (items any) = str (items any)
  text_of (mapping d) = str (mapping d)

-- `cfg.get(key, {})` where a config is wanted: `none` for what is no mapping.
unfoldable pub as_fields : {R : Type 0} → Value R → Option (Fields R)
as_fields (mapping d) = some d
as_fields _ = none
