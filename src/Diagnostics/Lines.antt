-- ===== src/Diagnostics/Lines.antt =====
-- `classify_nav2_line` of nav2_wrapper/diagnostics.py; letters outside ASCII are not lowered.
use service_navigation_rbnx.Base.{
  ℕ, zero, suc, ◌-◌, leb, ◌==◌, ◌&&◌, ◌||◌, String, Bool, true, false, Option, none, some, List, [],
  ◌∷◌, ◌≡◌, ◌≤◌, arith, length, if◌then◌else◌,
}
use Prim.Native.Char.{code}
use service_navigation_rbnx.Text.{codes, lower, strip}
use service_navigation_rbnx.Replace.{Code}
use service_navigation_rbnx.Params.{occurs}

-- The length of a match of `[0-9;]*[A-Za-z]` at the start.
unfoldable pub parameters_length : String → Option ℕ
parameters_length String.[] = none
parameters_length (String.◌∷◌ c s) =
    let later = parameters_length s in
    if leb b'0' (code c) && leb (code c) b'9' || code c == b';'
    then elim later [ none ↦ none | some n ↦ some (suc n) ]
    else if leb b'A' (code c) && leb (code c) b'Z' || leb b'a' (code c) && leb (code c) b'z'
    then some 1
    else none

-- The length of a match of `_ANSI` after its first character.
unfoldable pub escape_length : String → Option ℕ
escape_length String.[] = none
escape_length (String.◌∷◌ c s) =
    if code c == b'['
    then elim (parameters_length s) [ none ↦ none | some n ↦ some (suc n) ]
    else none

-- `_ANSI.sub("", line)`, of which the next characters are still to be skipped.
unfoldable pub without_escapes : ℕ → String → String
without_escapes skipped String.[] = String.[]
without_escapes (suc n) (String.◌∷◌ c s) = without_escapes n s
without_escapes zero (String.◌∷◌ c s) = elim (if code c == 27 then escape_length s else none) [
  | some n ↦ without_escapes n s
  | none ↦ String.◌∷◌ c (without_escapes zero s)
]

-- `_SIGNALS`
unfoldable pub signals : List String
signals =
    "failed to make progress" ∷ "controller patience exceeded" ∷ "resulting plan has 0 poses"
    ∷ "received plan with zero length" ∷ "no valid trajectories" ∷ "failed to create plan"
    ∷ "collision ahead" ∷ "rotation shim controller" ∷ "extrapolation error" ∷ "transform timeout"
    ∷ "timed out waiting for transform" ∷ "spin failed" ∷ []

-- `any(signal in lowered for signal in _SIGNALS)`
unfoldable pub any_occurs : List String → Code → Bool
unfolding codes
any_occurs [] lowered = false
any_occurs (signal ∷ rest) lowered = occurs (codes signal) lowered || any_occurs rest lowered

-- `text[n:]`
unfoldable pub drop_text : ℕ → String → String
drop_text zero s = s
drop_text (suc n) String.[] = String.[]
drop_text (suc n) (String.◌∷◌ c s) = drop_text n s

-- `clean[-240:]`
unfoldable pub last_240 : String → String
unfolding drop_text codes
last_240 clean = drop_text (length (codes clean) - 240) clean

-- `classify_nav2_line`
unfoldable pub classify_nav2_line : String → String
unfolding codes lower strip without_escapes signals any_occurs last_240
classify_nav2_line line =
    let clean = strip (without_escapes 0 line) in
    if any_occurs signals (lower (codes clean)) then last_240 clean else ""

length-drop_text : (n : ℕ) (s : String) → length (codes (drop_text n s)) ≡ length (codes s) - n
unfolding drop_text codes
length-drop_text zero s = omega arith
length-drop_text (suc n) String.[] = omega arith
length-drop_text (suc n) (String.◌∷◌ c s) = omega (arith, length-drop_text n s)

-- A reported line has at most 240 characters.
classify_nav2_line-length : (line : String) → length (codes (classify_nav2_line line)) ≤ 240
unfolding classify_nav2_line last_240
classify_nav2_line-length line = bounded (any_occurs signals (lower (codes clean))) clean
  where
    clean : String
    clean = strip (without_escapes 0 line)

    bounded :
        (b : Bool) (s : String)
        → length (codes (if b then drop_text (length (codes s) - 240) s else "")) ≤ 240
    bounded true s = rw (length-drop_text (length (codes s) - 240) s) (omega arith)
    bounded false s = unfold codes in omega arith
