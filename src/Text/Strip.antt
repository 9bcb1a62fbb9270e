-- ===== src/Text/Strip.antt =====
-- `text.strip()` leaves nothing to strip.
use service_navigation_rbnx.Base.{
  String, ◌≡◌, refl, false, ◌&&◌, ap, Bool-cases, inl, inr, ◌∙◌, sym, subst,
}
use Prim.Native.Char.{Char, code}
use service_navigation_rbnx.Text.{is_space, is_empty, lstrip, keep_unless_blank, rstrip, strip}

keep_again :
    (c : Char) (rest : String)
    → rstrip rest ≡ rest
    → rstrip (keep_unless_blank c rest) ≡ keep_unless_blank c rest
unfolding rstrip keep_unless_blank
keep_again c rest h = elim (Bool-cases (is_space (code c) && is_empty rest)) [
  | inl e ↦ rw e refl
  | inr e ↦ rw (e, h, e) refl
]

rstrip-rstrip : (s : String) → rstrip (rstrip s) ≡ rstrip s
unfolding rstrip
rstrip-rstrip String.[] = refl
rstrip-rstrip (String.◌∷◌ c s) = keep_again c (rstrip s) (rstrip-rstrip s)

kept :
    (c : Char) (rest : String)
    → is_space (code c) ≡ false
    → lstrip (String.◌∷◌ c rest) ≡ String.◌∷◌ c rest
unfolding lstrip
kept c rest e = rw e refl

kept_by_rstrip :
    (c : Char) (s : String)
    → is_space (code c) ≡ false
    → lstrip (rstrip (String.◌∷◌ c s)) ≡ rstrip (String.◌∷◌ c s)
unfolding rstrip keep_unless_blank
kept_by_rstrip c s e =
    subst (λ u. lstrip u ≡ u) (sym (written c (rstrip s) e)) (kept c (rstrip s) e)
  where
    written :
        (c : Char) (rest : String)
        → is_space (code c) ≡ false
        → keep_unless_blank c rest ≡ String.◌∷◌ c rest
    written c rest e = rw e refl

lstrip-rstrip-lstrip : (s : String) → lstrip (rstrip (lstrip s)) ≡ rstrip (lstrip s)
unfolding lstrip rstrip keep_unless_blank
lstrip-rstrip-lstrip String.[] = refl
lstrip-rstrip-lstrip (String.◌∷◌ c s) = elim (Bool-cases (is_space (code c))) [
  | inl e ↦ rw e (lstrip-rstrip-lstrip s)
  | inr e ↦ subst (λ u. lstrip (rstrip u) ≡ rstrip u) (sym (kept c s e)) (kept_by_rstrip c s e)
]

pub strip-strip : (s : String) → strip (strip s) ≡ strip s
unfolding strip
strip-strip s = ap rstrip (lstrip-rstrip-lstrip s) ∙ rstrip-rstrip (lstrip s)
