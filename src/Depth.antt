-- ===== src/Depth.antt =====
-- nav2_wrapper/depth_cloud.py: a depth image as a sparse cloud of points in the camera's frame. The one
-- type of numbers stands for NumPy's 32-bit and Python's 64-bit floats alike; headers and the constant
-- description of a point's fields are left out. Shapes are compared row by row, so that an image without
-- rows has every shape.
pub mod Points
pub mod Shape
pub mod Cache
pub mod Published
pub mod Rate
pub mod Start
mod Tests
use service_navigation_rbnx.Base.{
  ℕ, zero, suc, ◌+◌, ◌-◌, ◌*◌, ◌/◌, ◌==◌, String, Bool, true, false, not, ◌&&◌, ◌||◌, Option, none,
  some, List, [], ◌∷◌, ◌++◌, map, ◌=?◌, if◌then◌else◌, length, take, drop,
}
use service_navigation_rbnx.Float.{Float, ◌⊖◌, ◌⊗◌, ◌⊘◌, ◌<?◌, ◌≤?◌, max, whole}
use service_navigation_rbnx.Fallible.{Fallible, ok, err, ◌>>=◌, ◌>>◌, check, or_raise}

-- The intrinsics of `CameraInfo`: `k[0]`, `k[4]`, `k[2]`, `k[5]`, and the size that they are for.
pub record CameraInfo (R : Type 0) : Type 0 where
  pub fx : R
  pub fy : R
  pub cx : R
  pub cy : R
  pub width : ℕ
  pub height : ℕ

-- `data` is a list of bytes.
pub record Image : Type 0 where
  pub encoding : String
  pub height : ℕ
  pub width : ℕ
  pub step : ℕ
  pub bytes : List ℕ

-- `_grid`: the size that the rays are for, and (x/z, y/z) at each sampled pixel.
pub record Grid (R : Type 0) : Type 0 where
  pub height : ℕ
  pub width : ℕ
  pub rx : List (List R)
  pub ry : List (List R)

pub record DepthCloud (R : Type 0) : Type 0 where
  pub stride : ℕ
  pub min_range : R
  pub max_range : R
  pub period : R
  pub info : Option (CameraInfo R)
  pub last : R
  pub grid : Option (Grid R)

-- A published cloud.
pub record Cloud (R : Type 0) : Type 0 where
  pub points : List (R × R × R)
  pub width : ℕ
  pub row_step : ℕ

-- A buffer of another size than the image's, and arrays of different shapes.
pub data DepthError : Type 0 where
  bad_buffer bad_shape : DepthError

-- `np.frombuffer` on bytes, as 32-bit floats and as unsigned 16-bit numbers; `none` where the length is
-- no multiple of the item's size.
pub record Buffers (R : Type 0) : Type 0 where
  pub float32 : List ℕ → Option (List R)
  pub uint16 : List ℕ → Option (List R)

module _ {A : Type 0} where
  -- `xs[::stride]`, of which the next items are still to be skipped
  unfoldable pub every : ℕ → ℕ → List A → List A
  every stride skipped [] = []
  every stride (suc k) (x ∷ xs) = every stride k xs
  every stride zero (x ∷ xs) = x ∷ every stride (stride - 1) xs

  -- The rows of `xs.reshape(height, width)`, of `width` items each.
  unfoldable pub rows_of : ℕ → ℕ → List A → List (List A)
  rows_of zero width xs = []
  rows_of (suc n) width xs = take width xs ∷ rows_of n width (drop width xs)

  unfoldable pub reshape : ℕ → ℕ → List A → Fallible DepthError (List (List A))
  unfolding rows_of
  reshape height width xs = do
    check (length xs == height * width) bad_buffer
    ok (rows_of height width xs)

  -- `rows[:, :width]`
  unfoldable pub columns : ℕ → List (List A) → List (List A)
  columns width [] = []
  columns width (row ∷ rows) = take width row ∷ columns width rows

-- `rows[::stride, ::stride]`
unfoldable pub strided : {A : Type 0} → ℕ → List (List A) → List (List A)
unfolding every
strided stride rows = map (every stride 0) (every stride 0 rows)

-- `n` positions from `i` on
unfoldable pub positions : ℕ → ℕ → List ℕ
positions i zero = []
positions i (suc n) = i ∷ positions (suc i) n

module _ {R : Type 0} ⦃fl : Float R⦄ where
  -- `w / self.info.width if self.info.width else 1.0`
  unfoldable pub scale : ℕ → ℕ → R
  scale size zero = whole 1
  scale size (suc n) = whole size ⊘ whole (suc n)

  -- `(u - cx * sx) / (fx * sx)`
  unfoldable pub ray : R → R → R → ℕ → R
  ray f c s u = (whole u ⊖ c ⊗ s) ⊘ (f ⊗ s)

  -- The grid that `_rays` makes.
  unfoldable pub new_grid : CameraInfo R → ℕ → ℕ → ℕ → Grid R
  unfolding every positions scale ray
  new_grid info stride h w =
      let us = every stride 0 (positions 0 w) in
      let vs = every stride 0 (positions 0 h) in
      record {
        height = h;
        width = w;
        rx = map (λ v. map (ray info.fx info.cx (scale w info.width)) us) vs;
        ry = map (λ v. map (λ u. ray info.fy info.cy (scale h info.height) v) us) vs;
      }

  abbrev pub fits : Grid R → ℕ → ℕ → Bool
  fits g h w = (g.height == h) && (g.width == w)

  -- `_rays`
  unfoldable pub rays : CameraInfo R → ℕ → Option (Grid R) → ℕ → ℕ → Grid R
  unfolding new_grid
  rays info stride none h w = new_grid info stride h w
  rays info stride (some g) h w = if fits g h w then g else new_grid info stride h w

  -- `np.isfinite(z) & (z >= self.min_range) & (z <= self.max_range)`
  unfoldable pub is_kept : R → R → R → Bool
  is_kept low high z = fl.is_finite z && ((low ≤? z) && (z ≤? high))

  -- `rx[keep] * z[keep], ry[keep] * z[keep], z[keep]` on a row, and on the whole; the arrays must have
  -- one shape.
  unfoldable pub select_row :
      R → R → List R → List R → List R → Fallible DepthError (List (R × R × R))
  unfolding is_kept
  select_row low high [] [] [] = ok []
  select_row low high (x ∷ xs) (y ∷ ys) (z ∷ zs) = do
    rest ← select_row low high xs ys zs
    ok (if is_kept low high z then (x ⊗ z, y ⊗ z, z) ∷ rest else rest)
  select_row low high xs ys zs = err bad_shape

  unfoldable pub select :
      R → R → List (List R) → List (List R) → List (List R) → Fallible DepthError (List (R × R × R))
  unfolding select_row
  select low high [] [] [] = ok []
  select low high (xs ∷ xss) (ys ∷ yss) (zs ∷ zss) = do
    first ← select_row low high xs ys zs
    rest ← select low high xss yss zss
    ok (first ++ rest)
  select low high xss yss zss = err bad_shape

  -- The depths of an image in metres, from 32-bit floats or from millimetres.
  unfoldable pub metres : Buffers R → Image → Fallible DepthError (List (List R))
  unfolding reshape columns
  metres buffers msg = do
    xs ← or_raise (buffers.float32 msg.bytes) bad_buffer
    rows ← reshape msg.height (msg.step / 4) xs
    ok (columns msg.width rows)

  unfoldable pub millimetres : Buffers R → Image → Fallible DepthError (List (List R))
  unfolding reshape columns
  millimetres buffers msg = do
    xs ← or_raise (buffers.uint16 msg.bytes) bad_buffer
    rows ← reshape msg.height (msg.step / 2) xs
    ok (map (map (λ d. d ⊗ fl.decimal 1 3)) (columns msg.width rows))

  -- The decoded image, `none` where its encoding is not supported.
  unfoldable pub decode : Buffers R → Image → Option (Fallible DepthError (List (List R)))
  unfolding metres millimetres
  decode buffers msg =
      if (msg.encoding =? "32FC1") || (msg.encoding =? "32fc1")
      then some (metres buffers msg)
      else if (msg.encoding =? "16UC1") || (msg.encoding =? "mono16")
      then some (millimetres buffers msg)
      else none

  unfoldable pub cloud_of : List (R × R × R) → Cloud R
  cloud_of points = record { points = points; width = length points; row_step = 12 * length points }

  -- `_on_info`
  unfoldable pub on_info : CameraInfo R → DepthCloud R → DepthCloud R
  on_info msg d = record d { info = some msg; grid = none }

  -- What `_on_depth` does with the decoded depths.
  unfoldable pub project_depth :
      CameraInfo R
      → Image
      → List (List R)
      → DepthCloud R
      → DepthCloud R × Fallible DepthError (Option (Cloud R))
  unfolding rays strided select cloud_of
  project_depth info msg depth d =
      let g = rays info d.stride d.grid msg.height msg.width in
      (
        record d { grid = some g },
        (do
          points ← select d.min_range d.max_range g.rx g.ry (strided d.stride depth)
          ok (some (cloud_of points))),
      )

  unfoldable pub convert :
      Option (Fallible DepthError (List (List R)))
      → CameraInfo R
      → Image
      → DepthCloud R
      → DepthCloud R × Fallible DepthError (Option (Cloud R))
  unfolding project_depth
  convert none info msg d = (d, ok none)
  convert (some (err e)) info msg d = (d, err e)
  convert (some (ok depth)) info msg d = project_depth info msg depth d

  -- The body of `_on_depth`, with the intrinsics that it found.
  unfoldable pub on_depth_with :
      Option (CameraInfo R)
      → Buffers R
      → R
      → Image
      → DepthCloud R
      → DepthCloud R × Fallible DepthError (Option (Cloud R))
  unfolding convert decode
  on_depth_with none buffers now msg d = (d, ok none)
  on_depth_with (some info) buffers now msg d =
      let converted = convert (decode buffers msg) info msg (record d { last = now }) in
      if (now ⊖ d.last) <? d.period then (d, ok none) else converted

  -- `_on_depth` at the clock's time, with the cloud that it publishes.
  unfoldable pub on_depth :
      Buffers R → R → Image → DepthCloud R → DepthCloud R × Fallible DepthError (Option (Cloud R))
  unfolding on_depth_with
  on_depth buffers now msg d = on_depth_with d.info buffers now msg d
