-- ===== src/Replace/Pieces.antt =====
-- The pieces that a text is cut into.

use service_navigation_rbnx.Base.{
  ℕ, zero, suc, ◌-◌, ◌≡◌, refl, sym, subst, true, false, List, [], ◌∷◌, ◌++◌, arith, length, drop,
  All, Bool-cases, inl, inr,
}
use service_navigation_rbnx.Replace.{Code, is_prefix, extend, cut, scan, glue, join, count, replace}

-- No occurrence of `old` begins in the text.
abbrev pub Free : Code → Code → Type 0
Free old [] = Unit
Free old (c ∷ s) = (is_prefix old (c ∷ s) ≡ false) × Free old s

-- An occurrence at the start is followed by the rest.
prefix_rest : (old s : Code) → is_prefix old s ≡ true → old ++ drop (length old) s ≡ s
unfolding is_prefix
prefix_rest [] s h = refl
prefix_rest (p ∷ ps) [] h = cc
prefix_rest (p ∷ ps) (c ∷ s) h = ground (arith, prefix_rest ps s)

-- A longer text has every prefix of a shorter one.
prefix_append : (old s t : Code) → is_prefix old s ≡ true → is_prefix old (s ++ t) ≡ true
unfolding is_prefix
prefix_append [] s t h = refl
prefix_append (p ∷ ps) [] t h = cc
prefix_append (p ∷ ps) (c ∷ s) t h = ground (arith, prefix_append ps s t)

join-cut : (new : Code) (q : Code × List Code) → join new (cut q) ≡ new ++ join new q
unfolding glue
join-cut new (piece, pieces) = refl

join-extend : (new : Code) (c : ℕ) (q : Code × List Code) → join new (extend c q) ≡ c ∷ join new q
join-extend new c (piece, pieces) = refl

one_less : (n : ℕ) → suc n - 1 ≡ n
one_less n = omega arith

scan_match :
    (old : Code) (c : ℕ) (s : Code)
    → is_prefix old (c ∷ s) ≡ true
    → scan old zero (c ∷ s) ≡ cut (scan old (length old - 1) s)
unfolding scan
scan_match old c s h = rw (h, scan) refl

scan_pass :
    (old : Code) (c : ℕ) (s : Code)
    → is_prefix old (c ∷ s) ≡ false
    → scan old zero (c ∷ s) ≡ extend c (scan old zero s)
unfolding scan
scan_pass old c s h = rw (h, scan) refl

join-scan_from :
    (x : ℕ) (xs : Code) (skip : ℕ) (s : Code) → join (x ∷ xs) (scan (x ∷ xs) skip s) ≡ drop skip s
unfolding scan glue
join-scan_from x xs zero [] = refl
join-scan_from x xs (suc skip) [] = refl
join-scan_from x xs (suc skip) (c ∷ s) = join-scan_from x xs skip s
join-scan_from x xs zero (c ∷ s) = elim (Bool-cases (is_prefix (x ∷ xs) (c ∷ s))) [
  | inl at ↦
      let rest : join (x ∷ xs) (scan (x ∷ xs) (suc (length xs) - 1) s) ≡ drop (length xs) s =
        subst (λ n. join (x ∷ xs) (scan (x ∷ xs) (suc (length xs) - 1) s) ≡ drop n s)
          (one_less (length xs)) (join-scan_from x xs (suc (length xs) - 1) s) in
      rw (scan_match (x ∷ xs) c s at, join-cut, rest) (prefix_rest (x ∷ xs) (c ∷ s) at)
  | inr differs ↦ rw (scan_pass (x ∷ xs) c s differs, join-extend, join-scan_from x xs zero s) refl
]

-- The first piece is a prefix of the text that is left, so nothing in it matches.
piece_prefix :
    (old : Code) (c : ℕ) (s t : Code)
    → is_prefix old (c ∷ (s ++ t)) ≡ false
    → is_prefix old (c ∷ s) ≡ false
piece_prefix old c s t h = elim (Bool-cases (is_prefix old (c ∷ s))) [
  | inl at ↦ ground (arith, prefix_append old (c ∷ s) t at)
  | inr differs ↦ differs
]

AllFree : Code → Code × List Code → Type 0
AllFree old (piece, pieces) = Free old piece × All (Free old) pieces

scan_free_from : (x : ℕ) (xs : Code) (skip : ℕ) (s : Code) → AllFree (x ∷ xs) (scan (x ∷ xs) skip s)
unfolding AllFree scan
scan_free_from x xs zero [] = (tt, tt)
scan_free_from x xs (suc skip) [] = (tt, tt)
scan_free_from x xs (suc skip) (c ∷ s) = scan_free_from x xs skip s
scan_free_from x xs zero (c ∷ s) = elim (Bool-cases (is_prefix (x ∷ xs) (c ∷ s))) [
  | inl at ↦
      rw (scan_match (x ∷ xs) c s at) (
        go_cut (scan (x ∷ xs) (suc (length xs) - 1) s)
          (scan_free_from x xs (suc (length xs) - 1) s))
  | inr differs ↦ rw (scan_pass (x ∷ xs) c s differs) (
      go_extend (scan (x ∷ xs) zero s) (scan_free_from x xs zero s)
        (rw (join-scan_from x xs zero s) differs))
]
  where
    go_cut : (q : Code × List Code) → AllFree (x ∷ xs) q → AllFree (x ∷ xs) (cut q)
    go_cut (piece, pieces) f = (tt, f)

    go_extend :
        (q : Code × List Code)
        → AllFree (x ∷ xs) q
        → is_prefix (x ∷ xs) (c ∷ join (x ∷ xs) q) ≡ false
        → AllFree (x ∷ xs) (extend c q)
    go_extend (piece, pieces) f h =
        ((piece_prefix (x ∷ xs) c piece (glue (x ∷ xs) pieces) h, f.0), f.1)

-- Two texts that differ in the occurrences of a pattern: the pieces between them hold no occurrence, and
-- `n` of them are written as `new` in place of `old`.
pub record Patched (old new : Code) (n : ℕ) (before after : Code) : Type 0 where
  pub first : Code
  pub others : List Code
  pub occurrences : length others ≡ n
  pub free_first : Free old first
  pub free_others : All (Free old) others
  pub was : before ≡ first ++ glue old others
  pub is : after ≡ first ++ glue new others

-- For a pattern that is not empty, `replace` writes the new text at each of the occurrences that
-- `count` counts and leaves the pieces between them, which hold no further occurrence.
pub replace-Patched :
    (x : ℕ) (xs new s : Code) → Patched (x ∷ xs) new (count (x ∷ xs) s) s (replace (x ∷ xs) new s)
unfolding replace count AllFree
replace-Patched x xs new s = record {
  first = (scan (x ∷ xs) zero s).0;
  others = (scan (x ∷ xs) zero s).1;
  occurrences = refl;
  free_first = (scan_free_from x xs zero s).0;
  free_others = (scan_free_from x xs zero s).1;
  was = sym (join-scan_from x xs zero s);
  is = refl;
}

-- Replacing a pattern by itself, and so joining a text at the cuts, gives the text back.
pub replace_self : (x : ℕ) (xs s : Code) → replace (x ∷ xs) (x ∷ xs) s ≡ s
unfolding replace
replace_self x xs s = join-scan_from x xs zero s
