-- ===== src/Depth/Points.antt =====
-- The points that nav2_wrapper/depth_cloud.py publishes, pixel by pixel.
use service_navigation_rbnx.Base.{
  ℕ, zero, suc, ◌-◌, ◌≡◌, refl, ap, sym, ◌∙◌, List, [], ◌∷◌, ◌++◌, map, if◌then◌else◌, length, All,
}
use service_navigation_rbnx.Float.{Float, ◌⊗◌}
use service_navigation_rbnx.Fallible.{ok}
use service_navigation_rbnx.Depth.{
  CameraInfo, every, positions, strided, scale, ray, new_grid, is_kept, select_row, select,
}

-- A list with its positions, from `i` on.
abbrev pub indexed : {A : Type 0} → ℕ → List A → List (ℕ × A)
indexed i [] = []
indexed i (x ∷ xs) = (i, x) ∷ indexed (suc i) xs

module _ {A B : Type 0} where
  every-map :
      (f : A → B) (stride k : ℕ) (xs : List A)
      → every stride k (map f xs) ≡ map f (every stride k xs)
  unfolding every
  every-map f stride k [] = refl
  every-map f stride (suc k) (x ∷ xs) = every-map f stride k xs
  every-map f stride zero (x ∷ xs) = ap (λ r. f x ∷ r) (every-map f stride (stride - 1) xs)

module _ {A : Type 0} where
  positions-indexed :
      (i : ℕ) (xs : List A) → positions i (length xs) ≡ map (λ p. p.0) (indexed i xs)
  unfolding positions
  positions-indexed i [] = refl
  positions-indexed i (x ∷ xs) = ap (λ r. i ∷ r) (positions-indexed (suc i) xs)

  values_indexed : (i : ℕ) (xs : List A) → map (λ p. p.1) (indexed i xs) ≡ xs
  values_indexed i [] = refl
  values_indexed i (x ∷ xs) = ap (λ r. x ∷ r) (values_indexed (suc i) xs)

module _ {R : Type 0} ⦃fl : Float R⦄ (info : CameraInfo R) (h w : ℕ) (low high : R) where
  -- The camera's model of a pixel: the point at depth `z` in column `u` of row `v`, in an image of `h`
  -- rows and `w` columns.
  abbrev pub point : ℕ → ℕ → R → R × R × R
  point v u z = (
    ray info.fx info.cx (scale w info.width) u ⊗ z,
    ray info.fy info.cy (scale h info.height) v ⊗ z,
    z,
  )

  -- The points of the kept pixels of a row, and of rows.
  abbrev pub points_of_row : ℕ → List (ℕ × R) → List (R × R × R)
  points_of_row v [] = []
  points_of_row v ((u, z) ∷ pixels) =
      let rest = points_of_row v pixels in if is_kept low high z then point v u z ∷ rest else rest

  abbrev pub points_of : List (ℕ × List (ℕ × R)) → List (R × R × R)
  points_of [] = []
  points_of ((v, pixels) ∷ rows) = points_of_row v pixels ++ points_of rows

  select_row-points :
      (v : ℕ) (pixels : List (ℕ × R))
      → select_row low high
          (map (λ p. ray info.fx info.cx (scale w info.width) p.0) pixels)
          (map (λ p. ray info.fy info.cy (scale h info.height) v) pixels)
          (map (λ p. p.1) pixels)
        ≡ ok (points_of_row v pixels)
  unfolding select_row
  select_row-points v [] = refl
  select_row-points v ((u, z) ∷ pixels) = rw (select_row-points v pixels) refl

map-map :
    {A B C : Type 0} (g : B → C) (f : A → B) (xs : List A)
    → map g (map f xs) ≡ map (λ x. g (f x)) xs
map-map g f [] = refl
map-map g f (x ∷ xs) = ap (λ r. g (f x) ∷ r) (map-map g f xs)

module _ {A : Type 0} where
  every-positions :
      (stride : ℕ) (xs : List A) (n : ℕ)
      → length xs ≡ n
      → every stride 0 (positions 0 n) ≡ map (λ p. p.0) (every stride 0 (indexed 0 xs))
  every-positions stride xs n e =
      ap (λ k. every stride 0 (positions 0 k)) (sym e)
      ∙ (ap (every stride 0) (positions-indexed 0 xs)
          ∙ every-map (λ p. p.0) stride 0 (indexed 0 xs))

  every_values :
      (stride : ℕ) (xs : List A)
      → every stride 0 xs ≡ map (λ p. p.1) (every stride 0 (indexed 0 xs))
  every_values stride xs =
      ap (every stride 0) (sym (values_indexed 0 xs)) ∙ every-map (λ p. p.1) stride 0 (indexed 0 xs)

  All-every : (P : A → Type 0) (stride k : ℕ) (xs : List A) → All P xs → All P (every stride k xs)
  unfolding every
  All-every P stride k [] h = tt
  All-every P stride (suc k) (x ∷ xs) (p, ps) = All-every P stride k xs ps
  All-every P stride zero (x ∷ xs) (p, ps) = (p, All-every P stride (stride - 1) xs ps)

  All-indexed : (P : A → Type 0) (i : ℕ) (xs : List A) → All P xs → All (λ q. P q.1) (indexed i xs)
  All-indexed P i [] h = tt
  All-indexed P i (x ∷ xs) (p, ps) = (p, All-indexed P (suc i) xs ps)

-- The sampled pixels of an image, each with its column, in rows each with its number.
abbrev pub sampled : {R : Type 0} → ℕ → List (List R) → List (ℕ × List (ℕ × R))
sampled stride depth =
    map (λ p. (p.0, every stride 0 (indexed 0 p.1))) (every stride 0 (indexed 0 depth))

module _ {R : Type 0} ⦃fl : Float R⦄ (info : CameraInfo R) (h w : ℕ) (low high : R)
    (stride : ℕ) where
  abbrev columns_at : List ℕ
  columns_at = every stride 0 (positions 0 w)

  abbrev ray_x : ℕ → R
  ray_x u = ray info.fx info.cx (scale w info.width) u

  abbrev ray_y : ℕ → R
  ray_y v = ray info.fy info.cy (scale h info.height) v

  row_points :
      (v : ℕ) (row : List R)
      → length row ≡ w
      → select_row low high
          (map ray_x columns_at)
          (map (λ u. ray_y v) columns_at)
          (every stride 0 row)
        ≡ ok (points_of_row info h w low high v (every stride 0 (indexed 0 row)))
  row_points v row e =
      let pixels = every stride 0 (indexed 0 row) in
      rw
        (
          every-positions stride row w e,
          every_values stride row,
          map-map ray_x (λ p. p.0) pixels,
          map-map (λ u. ray_y v) (λ p. p.0) pixels,
        )
        (select_row-points info h w low high v pixels)

  rows_points :
      (rows : List (ℕ × List R))
      → All (λ p. length p.1 ≡ w) rows
      → select low high
          (map (λ v. map ray_x columns_at) (map (λ p. p.0) rows))
          (map (λ v. map (λ u. ray_y v) columns_at) (map (λ p. p.0) rows))
          (map (every stride 0) (map (λ p. p.1) rows))
        ≡ ok (points_of info h w low high (map (λ p. (p.0, every stride 0 (indexed 0 p.1))) rows))
  unfolding select
  rows_points [] es = refl
  rows_points ((v, row) ∷ rows) (e, es) = rw (row_points v row e, rows_points rows es) refl

  -- On an image of the grid's shape, the arrays select the points of the sampled pixels.
  pub select-points :
      (depth : List (List R))
      → length depth ≡ h
      → All (λ row. length row ≡ w) depth
      → select low high
          (new_grid info stride h w).rx
          (new_grid info stride h w).ry
          (strided stride depth)
        ≡ ok (points_of info h w low high (sampled stride depth))
  unfolding new_grid strided
  select-points depth e es =
      rw (every-positions stride depth h e, every_values stride depth)
        (rows_points (every stride 0 (indexed 0 depth)) (
          All-every (λ p. length p.1 ≡ w) stride 0 (indexed 0 depth)
            (All-indexed (λ row. length row ≡ w) 0 depth es)))
