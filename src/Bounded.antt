-- ===== src/Bounded.antt =====
-- Python's `collections.deque` with a `maxlen`.

use service_navigation_rbnx.Base.{
  ℕ, zero, suc, ◌-◌, ◌≤◌, ◌<◌, ◌≡◌, Bool-cases, inl, inr, refl, ap, ◌∙◌, subst, ltb, List, [], ◌∷◌,
  ◌++◌, if◌then◌else◌, length, drop, arith,
}

-- `deque(maxlen=size).append(x)`
unfoldable pub append_bounded : {A : Type 0} → ℕ → List A → A → List A
append_bounded size xs x =
    let all = xs ++ (x ∷ []) in if ltb size (length all) then drop 1 all else all

module _ {A : Type 0} where
  -- The last `n` items.
  abbrev pub last_of : ℕ → List A → List A
  last_of n xs = drop (length xs - n) xs

  length-snoc : (xs : List A) (x : A) → length (xs ++ (x ∷ [])) ≡ suc (length xs)
  length-snoc [] x = refl
  length-snoc (y ∷ ys) x = ap suc (length-snoc ys x)

  length-drop : (n : ℕ) (xs : List A) → length (drop n xs) ≡ length xs - n
  length-drop zero xs = omega arith
  length-drop (suc n) [] = omega arith
  length-drop (suc n) (x ∷ xs) = omega (arith, length-drop n xs)

  drop-snoc :
      (n : ℕ) (xs : List A) (x : A)
      → n ≤ length xs
      → drop n (xs ++ (x ∷ [])) ≡ drop n xs ++ (x ∷ [])
  drop-snoc zero xs x h = refl
  drop-snoc (suc n) [] x h = elim (absurd h) [ ]
    where
      absurd : suc n ≤ 0 → ⊥
      absurd h = omega arith
  drop-snoc (suc n) (y ∷ ys) x h = drop-snoc n ys x (omega arith)

  drop-drop : (n : ℕ) (xs : List A) → drop 1 (drop n xs) ≡ drop (suc n) xs
  drop-drop zero xs = refl
  drop-drop (suc n) [] = refl
  drop-drop (suc n) (x ∷ xs) = drop-drop n xs

  bounded :
      (n k : ℕ) (xs : List A)
      → 1 ≤ length xs
      → k ≡ length xs - 1 - n
      → (if ltb n (length (drop k xs)) then drop 1 (drop k xs) else drop k xs) ≡ last_of n xs
  bounded n k xs some_item at = elim (Bool-cases (ltb n (length (drop k xs)))) [
    | inl full ↦
        let more : n < length (drop k xs) = ground arith in
        let next : suc k ≡ length xs - n = omega (arith, length-drop k xs) in
        rw full (drop-drop k xs ∙ ap (λ i. drop i xs) next)
    | inr free ↦
        let fits : length (drop k xs) ≤ n = ground arith in
        let same : k ≡ length xs - n = omega (arith, length-drop k xs) in
        rw free (ap (λ i. drop i xs) same)
  ]

  -- A bounded queue holds the last items that were appended.
  pub append_bounded-last :
      (n : ℕ) (xs : List A) (x : A) → append_bounded n (last_of n xs) x ≡ last_of n (xs ++ (x ∷ []))
  unfolding append_bounded
  append_bounded-last n xs x =
      let k : ℕ = length xs - n in
      let joined = drop-snoc k xs x (omega arith) in
      subst (λ ys. (if ltb n (length ys) then drop 1 ys else ys) ≡ last_of n (xs ++ (x ∷ [])))
        joined
        (bounded n k (xs ++ (x ∷ [])) (omega (arith, length-snoc xs x))
          (omega (arith, length-snoc xs x)))
