-- ===== src/Text.antt =====
-- Python's string methods that the package calls, on the native texts.
pub mod Strip
use Prim.Native.Char.{Char, code}
use service_navigation_rbnx.Base.{
  ℕ, ◌+◌, String, Bool, true, false, ◌&&◌, ◌||◌, List, [], ◌∷◌, leb, ◌==◌, if◌then◌else◌,
}

-- `str.isspace` on one code point.
is_space : ℕ → Bool
is_space c =
    leb 9 c && leb c 13
    || leb 28 c && leb c 32
    || c == 133
    || c == 160
    || c == 5760
    || leb 8192 c && leb c 8202
    || c == 8232
    || c == 8233
    || c == 8239
    || c == 8287
    || c == 12288

abbrev pub is_empty : String → Bool
is_empty String.[] = true
is_empty (String.◌∷◌ c s) = false

lstrip : String → String
lstrip String.[] = String.[]
lstrip (String.◌∷◌ c s) = if is_space (code c) then lstrip s else String.◌∷◌ c s

keep_unless_blank : Char → String → String
keep_unless_blank c rest =
    if is_space (code c) && is_empty rest then String.[] else String.◌∷◌ c rest

-- `text.rstrip()`
unfoldable pub rstrip : String → String
unfolding keep_unless_blank is_space
rstrip String.[] = String.[]
rstrip (String.◌∷◌ c s) = keep_unless_blank c (rstrip s)

-- `text.strip()`
unfoldable pub strip : String → String
unfolding lstrip rstrip keep_unless_blank is_space
strip s = rstrip (lstrip s)

-- The code points of a text.
unfoldable pub codes : String → List ℕ
codes String.[] = []
codes (String.◌∷◌ c s) = code c ∷ codes s

-- `text.lower()` on ASCII letters.
unfoldable pub lower : List ℕ → List ℕ
lower [] = []
lower (c ∷ s) = (if leb b'A' c && leb c b'Z' then c + 32 else c) ∷ lower s

-- `text.startswith("/")`
unfoldable pub starts_with_slash : String → Bool
starts_with_slash String.[] = false
starts_with_slash (String.◌∷◌ c s) = code c == b'/'

unfoldable pub eq_codes : List ℕ → List ℕ → Bool
eq_codes [] [] = true
eq_codes [] (d ∷ t) = false
eq_codes (c ∷ s) [] = false
eq_codes (c ∷ s) (d ∷ t) = c == d && eq_codes s t
