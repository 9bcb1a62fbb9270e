-- ===== src/Params.antt =====
-- `_materialize_params` and `_binding_value` of nav2_wrapper/atlas_bridge.py: the tokens of a Nav2 parameter
-- file, on code points. Reading and writing files is left to the caller.
use service_navigation_rbnx.Base.{
  ℕ, ◌==◌, leb, Bool, true, false, not, ◌&&◌, ◌||◌, String, Option, none, some, is_some, List, [],
  ◌∷◌, ◌++◌, if◌then◌else◌, drop, length,
}
use service_navigation_rbnx.Text.{codes, eq_codes}
use service_navigation_rbnx.Replace.{Code, is_prefix, replace, index}
use service_navigation_rbnx.Fallible.{Fallible, ok, ◌>>=◌, ◌>>◌, check}

-- A token whose value is not resolved, and a token that is not known.
pub data ParamsError : Type 0 where
  unresolved_token : Code → ParamsError
  unknown_token : ParamsError

abbrev pub no_code : Code → Bool
no_code [] = true
no_code (c ∷ s) = false

-- `token in text`
unfoldable pub occurs : Code → Code → Bool
occurs token text = is_some (index token text)

-- `key:=`
unfoldable pub binding_prefix : String → Code
unfolding codes
binding_prefix key = codes key ++ codes ":="

-- `_binding_value`: the rest of the first binding of the key, empty without one.
unfoldable pub binding_value : List Code → String → Code
binding_value [] key = []
binding_value (b ∷ bs) key = elim (is_prefix (binding_prefix key) b) [
  | true ↦ drop (length (binding_prefix key)) b
  | false ↦ binding_value bs key
]

-- `item.partition(":=")`, `none` where the separator is missing
unfoldable pub partition : Code → Option (Code × Code)
unfolding codes
partition [] = none
partition (c ∷ s) = elim (is_prefix (codes ":=") (c ∷ s)) [
  | true ↦ some ([], drop 2 (c ∷ s))
  | false ↦ elim (partition s) [ none ↦ none | some (key, value) ↦ some (c ∷ key, value) ]
]

-- `resolved.get(key, "")` on the dict of the bindings, in which a later binding of a key wins.
unfoldable pub resolved : List Code → Code → Code
unfolding eq_codes
resolved [] key = []
resolved (b ∷ bs) key =
    let later = resolved bs key in
    elim (partition b) [
      | none ↦ later
      | some (k, value) ↦ if eq_codes k key && not (bound bs key) then value else later
    ]
  where
    bound : List Code → Code → Bool
    bound [] key = false
    bound (b ∷ bs) key = elim (partition b) [
      | none ↦ bound bs key
      | some (k, value) ↦ eq_codes k key || bound bs key
    ]

-- The loop on `replacements`.
unfoldable pub fill : List (Code × Code) → Code → Fallible ParamsError Code
fill [] text = ok text
fill ((token, value) ∷ rest) text = do
  check (not (occurs token text) || not (no_code value)) (unresolved_token token)
  fill rest (if occurs token text then replace token value text else text)

-- `[A-Z_]`
unfoldable pub in_token : ℕ → Bool
in_token c = leb b'A' c && leb c b'Z' || c == b'_'

-- `[A-Z_]*__`, after a first character of the class
unfoldable pub token_ends : Code → Bool
unfolding codes in_token
token_ends [] = false
token_ends (c ∷ s) = elim (is_prefix (codes "__") (c ∷ s)) [
  | true ↦ true
  | false ↦ elim (in_token c) [ true ↦ token_ends s | false ↦ false ]
]

-- `[A-Z_]+__`
unfoldable pub token_rest : Code → Bool
unfolding in_token
token_rest [] = false
token_rest (c ∷ s) = in_token c && token_ends s

unfoldable pub token_prefix : Code
unfolding codes
token_prefix = codes "__ROBONIX_"

-- Whether `re.findall(r"__ROBONIX_[A-Z_]+__", text)` finds anything.
unfoldable pub has_token : Code → Bool
has_token [] = false
has_token (c ∷ s) =
    let later = has_token s in
    is_prefix token_prefix (c ∷ s) && token_rest (drop (length token_prefix) (c ∷ s)) || later

-- The text with its tokens filled, where it has any.
unfoldable pub materialize : List (Code × Code) → Code → Fallible ParamsError Code
materialize replacements text = do
  filled ← fill replacements text
  check (not (has_token filled)) unknown_token
  ok filled
