-- ===== src/Fallible.antt =====
-- A result or an exception, for the parts that raise.
use service_navigation_rbnx.Base.{Bool, true, false, Option, none, some, ◌≡◌, refl, arith}

pub data Fallible (E A : Type 0) : Type 0 where
  ok : A → Fallible E A
  err : E → Fallible E A

infixl 5 ◌>>=◌ ◌>>◌
abbrev pub ◌>>=◌ : {E A B : Type 0} → Fallible E A → (A → Fallible E B) → Fallible E B
ok a >>= f = f a
err e >>= f = err e

abbrev pub ◌>>◌ : {E B : Type 0} → Fallible E (Unit {0}) → Fallible E B → Fallible E B
m >> k = m >>= λ _. k

-- `if not test: raise error`
abbrev pub check : {E : Type 0} → Bool → E → Fallible E (Unit {0})
check true e = ok tt
check false e = err e

abbrev pub or_raise : {E A : Type 0} → Option A → E → Fallible E A
or_raise none e = err e
or_raise (some a) e = ok a

-- A chain that returns went through each of its parts.
pub bind-ok :
    {E A B : Type 0} (m : Fallible E A) (f : A → Fallible E B) {b : B}
    → (m >>= f) ≡ ok b
    → (a : A) × (m ≡ ok a) × (f a ≡ ok b)
bind-ok (ok a) f h = (a, refl, h)
bind-ok (err e) f h = cc

pub or_raise-ok : {E A : Type 0} (o : Option A) (e : E) {a : A} → or_raise o e ≡ ok a → o ≡ some a
or_raise-ok none e h = cc
or_raise-ok (some a) e h = ground arith
