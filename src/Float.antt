-- ===== src/Float.antt =====
-- The floating-point numbers that Python computes with, and the functions of `math` that the
-- package calls. They are a parameter of the model: an instance `Float R` of operations on some
-- type `R`, and a record `FloatLaws` of the order laws that IEEE 754 doubles satisfy.
use service_navigation_rbnx.Base.{ℕ, String, Option, Bool, true, false, ◌≡◌, if◌then◌else◌}

pub record Float (R : Type 0) : Type 0 where
  -- A literal: `decimal m k` is m / 10^k.
  pub decimal : ℕ → ℕ → R
  pub infinity : R
  pub add : R → R → R
  pub sub : R → R → R
  pub mul : R → R → R
  pub div : R → R → R
  pub abs : R → R
  pub lt : R → R → Bool
  pub le : R → R → Bool
  pub eq : R → R → Bool
  pub is_finite : R → Bool
  pub hypot : R → R → R
  pub atan2 : R → R → R
  pub sin : R → R
  pub cos : R → R
  -- `round(x, 6)`
  pub round_6 : R → R
  -- `math.isclose(a, b, rel_tol=0.0, abs_tol=1e-9)`
  pub is_close : R → R → Bool
  pub degrees : R → R
  pub radians : R → R
  -- `round(x, digits)` for other counts of digits
  pub round_to : ℕ → R → R
  -- `float(text)`, `none` where it raises, and the formats `%g` and `%.kf`.
  pub parse : String → Option R
  pub format_g : R → String
  pub format_f : ℕ → R → String

module _ {R : Type 0} ⦃fl : Float R⦄ where
  infixl 65 ◌⊕◌ ◌⊖◌
  infixl 70 ◌⊗◌ ◌⊘◌
  infix 50 ◌<?◌ ◌≤?◌
  abbrev pub ◌⊕◌ : R → R → R
  a ⊕ b = fl.add a b

  abbrev pub ◌⊖◌ : R → R → R
  a ⊖ b = fl.sub a b

  abbrev pub ◌⊗◌ : R → R → R
  a ⊗ b = fl.mul a b

  abbrev pub ◌⊘◌ : R → R → R
  a ⊘ b = fl.div a b

  abbrev pub ◌<?◌ : R → R → Bool
  a <? b = fl.lt a b

  abbrev pub ◌≤?◌ : R → R → Bool
  a ≤? b = fl.le a b

  -- Python's `min(a, b)` and `max(a, b)` keep the first argument unless the second is strictly
  -- beyond it.
  abbrev pub min : R → R → R
  min a b = if b <? a then b else a

  abbrev pub max : R → R → R
  max a b = if a <? b then b else a

  -- A whole literal such as `100.0`.
  abbrev pub whole : ℕ → R
  whole n = fl.decimal n 0

-- What the package relies on: the order of IEEE 754 doubles, in which NaN stands in no relation, and
-- `round`, which is monotone, idempotent and leaves `100.0` alone. A value is ordered when it is not NaN.
pub record FloatLaws (R : Type 0) ⦃fl : Float R⦄ : Type 0 where
  pub lt_irrefl : (a : R) → (a <? a) ≡ false
  pub lt-le : (a b : R) → (a <? b) ≡ true → (a ≤? b) ≡ true
  pub le_trans : (a b c : R) → (a ≤? b) ≡ true → (b ≤? c) ≡ true → (a ≤? c) ≡ true
  pub lt_le_trans : (a b c : R) → (a <? b) ≡ true → (b ≤? c) ≡ true → (a <? c) ≡ true
  pub le_lt_trans : (a b c : R) → (a ≤? b) ≡ true → (b <? c) ≡ true → (a <? c) ≡ true
  pub not_lt_of_le : (a b : R) → (a ≤? b) ≡ true → (b <? a) ≡ false
  pub le_antisym_pos : (a b : R) → (whole 0 <? a) ≡ true → (a ≤? b) ≡ true → (b ≤? a) ≡ true → a ≡ b
  pub eq_of_lt : (a b : R) → (b <? a) ≡ true → fl.eq a b ≡ false
  pub le_of_not_lt :
      (a b : R) → (a ≤? a) ≡ true → (b ≤? b) ≡ true → (a <? b) ≡ false → (b ≤? a) ≡ true
  pub is_finite-le : (a : R) → fl.is_finite a ≡ true → (a ≤? a) ≡ true
  pub le-add_pos :
      (a b : R)
      → fl.is_finite a ≡ true
      → fl.is_finite b ≡ true
      → (whole 0 <? b) ≡ true
      → (a ≤? (a ⊕ b)) ≡ true
  pub sub_pos-le :
      (a b : R)
      → fl.is_finite a ≡ true
      → fl.is_finite b ≡ true
      → (whole 0 <? b) ≡ true
      → ((a ⊖ b) ≤? a) ≡ true
  pub round_6_mono : (a b : R) → (a ≤? b) ≡ true → (fl.round_6 a ≤? fl.round_6 b) ≡ true
  pub round_6-hundred : fl.round_6 (whole 100) ≡ whole 100
  pub round_6-round_6 : (a : R) → fl.round_6 (fl.round_6 a) ≡ fl.round_6 a
  pub is_finite-round_6 : (a : R) → fl.is_finite a ≡ true → fl.is_finite (fl.round_6 a) ≡ true
  pub is_finite_between :
      (a x b : R)
      → fl.is_finite a ≡ true
      → fl.is_finite b ≡ true
      → (a ≤? x) ≡ true
      → (x ≤? b) ≡ true
      → fl.is_finite x ≡ true
  pub le-add_nonneg :
      (a b : R)
      → fl.is_finite a ≡ true
      → fl.is_finite b ≡ true
      → (whole 0 ≤? b) ≡ true
      → (a ≤? (a ⊕ b)) ≡ true
  pub is_finite-zero : fl.is_finite (whole 0) ≡ true
  pub is_finite-hundred : fl.is_finite (whole 100) ≡ true
