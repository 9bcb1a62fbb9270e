-- ===== src/Fixed.antt =====
-- A concrete instance of `Float` for tests: fixed-point numbers in millionths, as integers, with
-- |x| + |y| in place of `hypot` and angles that are their own sine.
use Prim.Native.Char.{code}
use service_navigation_rbnx.Base.{
  ℕ, ◌+◌, ◌-◌, String, Option, some, leb, if◌then◌else◌, ◌*◌, ◌/◌, ◌^◌, ◌≡◌, refl, none, Bool, true,
  false, ◌&&◌, arith,
}
use service_navigation_rbnx.Int.{ℤ, pos, negsuc, pos_part, neg_part, sub_ℕ, ltb_ℤ, leb_ℤ}
use service_navigation_rbnx.Float.{Float, FloatLaws}

abbrev unit : ℕ
unit = 1_000_000

abbrev add_ℤ : ℤ → ℤ → ℤ
add_ℤ a b = sub_ℕ (pos_part a + pos_part b) (neg_part a + neg_part b)

abbrev sub_ℤ : ℤ → ℤ → ℤ
sub_ℤ a b = sub_ℕ (pos_part a + neg_part b) (neg_part a + pos_part b)

abbrev mul_ℤ : ℤ → ℤ → ℤ
mul_ℤ a b =
    sub_ℕ ((pos_part a * pos_part b + neg_part a * neg_part b) / unit)
      ((pos_part a * neg_part b + neg_part a * pos_part b) / unit)

-- One of the two parts of `b` is 0, and a number divided by 0 is 0.
abbrev div_ℤ : ℤ → ℤ → ℤ
div_ℤ a b =
    sub_ℕ (pos_part a * unit / pos_part b + neg_part a * unit / neg_part b)
      (pos_part a * unit / neg_part b + neg_part a * unit / pos_part b)

abbrev abs_ℤ : ℤ → ℤ
abs_ℤ a = pos (pos_part a + neg_part a)

abbrev far : ℤ
far = pos 1_000_000_000_000_000

abbrev finite : ℤ → Bool
finite a = ltb_ℤ a far

-- A text of decimal digits, in millionths.
abbrev read_digits : ℕ → String → Option ℕ
read_digits n String.[] = some n
read_digits n (String.◌∷◌ c s) =
    let rest = read_digits (n * 10 + (code c - b'0')) s in
    if leb b'0' (code c) && leb (code c) b'9' then rest else none

abbrev read_number : String → Option ℤ
read_number String.[] = none
read_number (String.◌∷◌ c s) = elim (read_digits 0 (String.◌∷◌ c s)) [
  | none ↦ none
  | some n ↦ some (pos n)
]

instance abbrev pub fixed : Float ℤ
fixed = record {
  decimal = λ m k. pos (m * unit / 10 ^ k);
  infinity = far;
  add = add_ℤ;
  sub = sub_ℤ;
  mul = mul_ℤ;
  div = div_ℤ;
  abs = abs_ℤ;
  lt = ltb_ℤ;
  le = leb_ℤ;
  eq = λ a b. leb_ℤ a b && leb_ℤ b a;
  is_finite = finite;
  hypot = λ x y. add_ℤ (abs_ℤ x) (abs_ℤ y);
  atan2 = λ y x. y;
  sin = λ x. x;
  cos = λ x. pos unit;
  round_6 = λ x. x;
  is_close = λ a b. leb_ℤ a b && leb_ℤ b a;
  parse = read_number;
  degrees = λ x. x;
  radians = λ x. x;
  round_to = λ k x. x;
  format_g = λ x. "";
  format_f = λ k x. "";
}

ltb_irrefl : (a : ℤ) → ltb_ℤ a a ≡ false
ltb_irrefl a = ground arith

ltb-leb : (a b : ℤ) → ltb_ℤ a b ≡ true → leb_ℤ a b ≡ true
ltb-leb a b h = ground arith

leb_trans : (a b c : ℤ) → leb_ℤ a b ≡ true → leb_ℤ b c ≡ true → leb_ℤ a c ≡ true
leb_trans a b c h k = ground arith

ltb_leb_trans : (a b c : ℤ) → ltb_ℤ a b ≡ true → leb_ℤ b c ≡ true → ltb_ℤ a c ≡ true
ltb_leb_trans a b c h k = ground arith

leb_ltb_trans : (a b c : ℤ) → leb_ℤ a b ≡ true → ltb_ℤ b c ≡ true → ltb_ℤ a c ≡ true
leb_ltb_trans a b c h k = ground arith

not_ltb_of_leb : (a b : ℤ) → leb_ℤ a b ≡ true → ltb_ℤ b a ≡ false
not_ltb_of_leb a b h = ground arith

leb_of_not_ltb : (a b : ℤ) → ltb_ℤ a b ≡ false → leb_ℤ b a ≡ true
leb_of_not_ltb a b h = ground arith

leb_refl : (a : ℤ) → leb_ℤ a a ≡ true
leb_refl a = ground arith

leb-add_pos : (a b : ℤ) → ltb_ℤ (pos 0) b ≡ true → leb_ℤ a (add_ℤ a b) ≡ true
leb-add_pos a b h = ground arith

leb-add_nonneg : (a b : ℤ) → leb_ℤ (pos 0) b ≡ true → leb_ℤ a (add_ℤ a b) ≡ true
leb-add_nonneg a b h = ground arith

sub_pos-leb : (a b : ℤ) → ltb_ℤ (pos 0) b ≡ true → leb_ℤ (sub_ℤ a b) a ≡ true
sub_pos-leb a b h = ground arith

leb_antisym_pos : (a b : ℤ) → ltb_ℤ (pos 0) a ≡ true → leb_ℤ a b ≡ true → leb_ℤ b a ≡ true → a ≡ b
leb_antisym_pos (pos a) (pos b) p h k = let e : a ≡ b = ground arith in rw e refl
leb_antisym_pos (pos a) (negsuc b) p h k = ground arith
leb_antisym_pos (negsuc a) b p h k = ground arith

eq_of_ltb : (a b : ℤ) → ltb_ℤ b a ≡ true → (leb_ℤ a b && leb_ℤ b a) ≡ false
eq_of_ltb a b h = ground arith

-- The instance meets the laws.
pub fixed_laws : FloatLaws ℤ
fixed_laws = record {
  lt_irrefl = ltb_irrefl;
  lt-le = ltb-leb;
  le_trans = leb_trans;
  lt_le_trans = ltb_leb_trans;
  le_lt_trans = leb_ltb_trans;
  not_lt_of_le = not_ltb_of_leb;
  le_antisym_pos = leb_antisym_pos;
  eq_of_lt = eq_of_ltb;
  le_of_not_lt = λ a b _ _ h. leb_of_not_ltb a b h;
  is_finite-le = λ a _. leb_refl a;
  le-add_pos = λ a b _ _ h. leb-add_pos a b h;
  sub_pos-le = λ a b _ _ h. sub_pos-leb a b h;
  round_6_mono = λ a b h. h;
  round_6-hundred = refl;
  round_6-round_6 = λ a. refl;
  is_finite-round_6 = λ a h. h;
  is_finite_between = λ a x b _ h _ k. leb_ltb_trans x b far k h;
  le-add_nonneg = λ a b _ _ h. leb-add_nonneg a b h;
  is_finite-zero = refl;
  is_finite-hundred = refl;
}
