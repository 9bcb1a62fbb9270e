-- ===== src/Lifecycle/Wait.antt =====
-- The loops of `_wait_for_action` and `_wait_for_speed_subscriber` of nav2_wrapper/atlas_bridge.py. Round `i`
-- finds the clock before the deadline or not, `before i`, and what is waited for there or not, `there i`.
use service_navigation_rbnx.Base.{
  ℕ, zero, suc, ◌+◌, ◌<◌, ◌≤◌, ◌≡◌, refl, ◌⊎◌, inl, inr, Bool, true, false, Option, none, some,
  if◌then◌else◌, arith, Bool-cases, subst, ap,
}

-- The loop from round `i`, and the result, `none` where the fuel runs out.
unfoldable pub wait_from : ℕ → (ℕ → Bool) → (ℕ → Bool) → ℕ → Option Bool
wait_from zero before there i = none
wait_from (suc fuel) before there i =
    let rest = wait_from fuel before there (suc i) in
    if before i then (if there i then some true else rest) else some false

unfoldable pub wait : ℕ → (ℕ → Bool) → (ℕ → Bool) → Option Bool
unfolding wait_from
wait fuel before there = wait_from fuel before there 0

-- What the result of the loop means: it was there in a round before the deadline, or in no such round.
pub data Waited (before there : ℕ → Bool) (i : ℕ) : Bool → Type 0 where
  found :
      (n : ℕ)
      → ((k : ℕ) → i ≤ k → k < n → (before k ≡ true) × (there k ≡ false))
      → i ≤ n
      → before n ≡ true
      → there n ≡ true
      → Waited before there i true
  timed_out :
      (n : ℕ)
      → ((k : ℕ) → i ≤ k → k < n → (before k ≡ true) × (there k ≡ false))
      → i ≤ n
      → before n ≡ false
      → Waited before there i false

module _ (before there : ℕ → Bool) where
  or_later : (i k : ℕ) → i ≤ k → (i ≡ k) ⊎ (suc i ≤ k)
  or_later i k h = omega arith

  earlier :
      (i n : ℕ)
      → before i ≡ true
      → there i ≡ false
      → ((k : ℕ) → suc i ≤ k → k < n → (before k ≡ true) × (there k ≡ false))
      → (k : ℕ) → i ≤ k
      → k < n
      → (before k ≡ true) × (there k ≡ false)
  earlier i n b t later k le lt = elim (or_later i k le) [
    | inl e ↦ subst (λ j. (before j ≡ true) × (there j ≡ false)) e (b, t)
    | inr s ↦ later k s lt
  ]

  nothing_between : (i k : ℕ) → i ≤ k → k < i → (before k ≡ true) × (there k ≡ false)
  nothing_between i k le lt = elim (impossible i k le lt) [ ]
    where
      impossible : (i k : ℕ) → i ≤ k → k < i → ⊥
      impossible i k le lt = omega arith

  extend :
      (i : ℕ) {b : Bool}
      → before i ≡ true
      → there i ≡ false
      → Waited before there (suc i) b
      → Waited before there i b
  extend i h t (Waited.found n later le b r) =
      Waited.found n (earlier i n h t later) (by_suc le) b r
    where
      by_suc : suc i ≤ n → i ≤ n
      by_suc s = omega arith
  extend i h t (Waited.timed_out n later le b) =
      Waited.timed_out n (earlier i n h t later) (by_suc le) b
    where
      by_suc : suc i ≤ n → i ≤ n
      by_suc s = omega arith

  not_last : (i n : ℕ) → i ≤ n → before n ≡ false → before i ≡ true → suc i ≤ n
  not_last i n le e b = elim (or_later i n le) [
    | inl same ↦ ground (arith, ap before same)
    | inr s ↦ s
  ]

  spent : (n i : ℕ) → i ≤ n → n < i + zero → ⊥
  spent n i le lt = omega arith

  wait_from-Waited :
      (n : ℕ)
      → before n ≡ false
      → (fuel i : ℕ) → i ≤ n
      → n < i + fuel
      → (b : Bool) × (wait_from fuel before there i ≡ some b) × Waited before there i b
  unfolding wait_from
  wait_from-Waited n e zero i le lt = elim (spent n i le lt) [ ]
  wait_from-Waited n e (suc fuel) i le lt = elim (Bool-cases (before i)) [
    | inr over ↦ (false, rw over refl, Waited.timed_out i (nothing_between i) (self i) over)
    | inl b ↦ elim (Bool-cases (there i)) [
      | inl seen ↦ (true, rw (b, seen) refl, Waited.found i (nothing_between i) (self i) b seen)
      | inr missing ↦
          let (r, q, w) =
            wait_from-Waited n e fuel (suc i) (not_last i n le e b) (shift i fuel n lt) in
          (r, rw (b, missing) q, extend i b missing w)
    ]
  ]
    where
      self : (i : ℕ) → i ≤ i
      self i = omega arith

      shift : (i fuel n : ℕ) → n < i + suc fuel → n < suc i + fuel
      shift i fuel n h = omega arith

  -- A loop that waits ends in at most as many rounds as the clock needs to reach the deadline, and
  -- says that what it waits for is there exactly where the first round that decides finds it there
  -- before the deadline.
  pub wait-Waited :
      (n fuel : ℕ)
      → before n ≡ false
      → n < fuel
      → (b : Bool) × (wait fuel before there ≡ some b) × Waited before there 0 b
  unfolding wait
  wait-Waited n fuel e enough = wait_from-Waited n e fuel 0 (omega arith) (omega arith)
