-- ===== src/ScanFilter/Removal.antt =====
-- What the scan filter removes.
use service_navigation_rbnx.Base.{
  ℕ, zero, suc, ◌+◌, ◌≡◌, ◌<◌, refl, ◌==◌, ◌||◌, Bool, true, false, some, List, [], ◌∷◌, arith,
  length, get_elem?, subst,
}
use service_navigation_rbnx.Float.{Float}
use service_navigation_rbnx.ScanFilter.{Filter, is_removed, filter_from, filter_ranges}

-- Whether a position is listed.
abbrev pub listed : ℕ → List ℕ → Bool
listed i [] = false
listed i (j ∷ js) = i == j || listed i js

module _ {R : Type 0} ⦃fl : Float R⦄ where
  -- The output at a position.
  abbrev pub filtered : Bool → R → R
  filtered true value = fl.infinity
  filtered false value = value

  filter_from_at :
      (p : Filter R) (ranges : List R) (index : ℕ) (rest : List R) (i : ℕ) (value : R)
      → get_elem? rest i ≡ some value
      → get_elem? (filter_from p ranges index rest).0 i
        ≡ some (filtered (is_removed p ranges (index + i) value) value)
  unfolding filter_from
  filter_from_at p ranges index [] i value h = ground arith
  filter_from_at p ranges index (x ∷ rest) zero value h = ground arith
  filter_from_at p ranges index (x ∷ rest) (suc i) value h =
      let later = filter_from_at p ranges (suc index) rest i value h in
      let same : suc index + i ≡ index + suc i = ground arith in ground arith

  not_listed_before :
      (p : Filter R) (ranges : List R) (index : ℕ) (rest : List R) (j : ℕ)
      → j < index
      → listed j (filter_from p ranges index rest).1 ≡ false
  unfolding filter_from
  not_listed_before p ranges index [] j h = refl
  not_listed_before p ranges index (x ∷ rest) j h =
      let later = not_listed_before p ranges (suc index) rest j (ground arith) in ground arith

  listed-filter_from :
      (p : Filter R) (ranges : List R) (index : ℕ) (rest : List R) (i : ℕ) (value : R)
      → get_elem? rest i ≡ some value
      → listed (index + i) (filter_from p ranges index rest).1
        ≡ is_removed p ranges (index + i) value
  unfolding filter_from
  listed-filter_from p ranges index [] i value h = ground arith
  listed-filter_from p ranges index (x ∷ rest) zero value h =
      let none_before = not_listed_before p ranges (suc index) rest index (ground arith) in
      ground arith
  listed-filter_from p ranges index (x ∷ rest) (suc i) value h =
      let later = listed-filter_from p ranges (suc index) rest i value h in
      let same : suc index + i ≡ index + suc i = ground arith in ground arith

  length-filter_from :
      (p : Filter R) (ranges : List R) (index : ℕ) (rest : List R)
      → length (filter_from p ranges index rest).0 ≡ length rest
  unfolding filter_from
  length-filter_from p ranges index [] = refl
  length-filter_from p ranges index (x ∷ rest) =
      let later = length-filter_from p ranges (suc index) rest in ground arith

  -- The filter keeps the scan's length, and at each of its positions, on its own, either keeps the
  -- reading and does not list the position, or, where the reading is to be removed, writes infinity and
  -- lists the position.
  pub filter_ranges_at :
      (p : Filter R) (ranges : List R) (i : ℕ) (value : R)
      → get_elem? ranges i ≡ some value
      → let (output, removed) = filter_ranges p ranges in
        (length output ≡ length ranges)
        × (get_elem? output i ≡ some (filtered (is_removed p ranges i value) value))
        × (listed i removed ≡ is_removed p ranges i value)
  unfolding filter_ranges
  filter_ranges_at p ranges i value h =
      let at_zero : 0 + i ≡ i = ground arith in
      let kept = filter_from_at p ranges 0 ranges i value h in
      let listing = listed-filter_from p ranges 0 ranges i value h in
      (
        length-filter_from p ranges 0 ranges,
        subst
            (λ j.
              get_elem? (filter_from p ranges 0 ranges).0 i
              ≡ some (filtered (is_removed p ranges j value) value))
            at_zero kept,
        subst (λ j. listed j (filter_from p ranges 0 ranges).1 ≡ is_removed p ranges j value)
            at_zero listing,
      )
