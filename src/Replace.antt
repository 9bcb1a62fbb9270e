-- ===== src/Replace.antt =====
-- Python's `text.count(old)`, `text.replace(old, new)` and `text.index(old, start)`, on code points. The
-- pattern is not empty. One scan, from the left, cuts the text at the occurrences that Python finds.
pub mod Pieces
use service_navigation_rbnx.Base.{
  ℕ, zero, suc, ◌+◌, ◌-◌, ◌==◌, Bool, true, false, Option, none, some, List, [], ◌∷◌, ◌++◌, length,
  take, drop, if◌then◌else◌,
}

abbrev pub Code : Type 0
Code = List ℕ

-- `text.startswith(old)`
unfoldable pub is_prefix : Code → Code → Bool
is_prefix [] s = true
is_prefix (p ∷ ps) [] = false
is_prefix (p ∷ ps) (c ∷ s) = elim (p == c) [ true ↦ is_prefix ps s | false ↦ false ]

-- What the rest of the scan adds to the piece that is open.
abbrev pub extend : ℕ → Code × List Code → Code × List Code
extend c (piece, pieces) = (c ∷ piece, pieces)

abbrev pub cut : Code × List Code → Code × List Code
cut (piece, pieces) = ([], piece ∷ pieces)

-- The pieces of a text between the occurrences of `old`; `skip` characters belong to an occurrence that
-- has begun.
unfoldable pub scan : Code → ℕ → Code → Code × List Code
scan old skip [] = ([], [])
scan old (suc skip) (c ∷ s) = scan old skip s
scan old zero (c ∷ s) = elim (is_prefix old (c ∷ s)) [
  | true ↦ cut (scan old (length old - 1) s)
  | false ↦ extend c (scan old zero s)
]

unfoldable pub glue : Code → List Code → Code
glue new [] = []
glue new (piece ∷ pieces) = new ++ (piece ++ glue new pieces)

abbrev pub join : Code → Code × List Code → Code
join new (piece, pieces) = piece ++ glue new pieces

unfoldable pub count : Code → Code → ℕ
count old s = length (scan old zero s).1

unfoldable pub replace : Code → Code → Code → Code
replace old new s = join new (scan old zero s)

-- `text.index(old, start)`, relative to `start`; `none` where it raises `ValueError`.
unfoldable pub index : Code → Code → Option ℕ
index old [] = none
index old (c ∷ s) = elim (is_prefix old (c ∷ s)) [
  | true ↦ some 0
  | false ↦ elim (index old s) [ none ↦ none | some i ↦ some (suc i) ]
]
