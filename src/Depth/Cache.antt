-- ===== src/Depth/Cache.antt =====
-- The cached rays of nav2_wrapper/depth_cloud.py, and what each image gives.
use service_navigation_rbnx.Base.{
  ℕ, ◌==◌, ◌≡◌, refl, sym, ap, ◌∙◌, subst, Bool, true, false, ◌&&◌, Option, none, some, List, [],
  ◌∷◌, if◌then◌else◌, arith,
}
use service_navigation_rbnx.Float.{Float, ◌⊖◌, ◌<?◌}
use service_navigation_rbnx.Fallible.{Fallible, ok, err}
use service_navigation_rbnx.Depth.{
  CameraInfo, Image, Grid, DepthCloud, DepthError, Buffers, new_grid, rays, decode, cloud_of,
  on_info, project_depth, convert, on_depth_with, on_depth,
}
use service_navigation_rbnx.Depth.Points.{points_of, sampled, select-points}
use service_navigation_rbnx.Depth.Shape.{Shaped}

-- A message, an image with the time at which it is handled.
pub data Message (R : Type 0) : Type 0 where
  informs : CameraInfo R → Message R
  shows : R → Image → Message R

eq_nat : (m n : ℕ) → (m == n) ≡ true → m ≡ n
eq_nat m n h = ground arith

module _ {R : Type 0} ⦃fl : Float R⦄ where
  -- The grid is the one for its size under the intrinsics.
  abbrev pub Cached : Option (CameraInfo R) → ℕ → Option (Grid R) → Type 0
  Cached info stride none = Unit
  Cached none stride (some g) = ⊥
  Cached (some info) stride (some g) = g ≡ new_grid info stride g.height g.width

  abbrev pub IsCached : DepthCloud R → Type 0
  IsCached d = Cached d.info d.stride d.grid

  abbrev pub receive : Buffers R → Message R → DepthCloud R → DepthCloud R
  receive buffers (informs info) d = on_info info d
  receive buffers (shows now msg) d = (on_depth buffers now msg d).0

  abbrev pub receive_all : Buffers R → List (Message R) → DepthCloud R → DepthCloud R
  receive_all buffers [] d = d
  receive_all buffers (e ∷ es) d = receive_all buffers es (receive buffers e d)

  fitting :
      (info : CameraInfo R) (stride h w : ℕ) (g : Grid R) (a b : Bool)
      → (a ≡ true → g.height ≡ h)
      → (b ≡ true → g.width ≡ w)
      → g ≡ new_grid info stride g.height g.width
      → (if a && b then g else new_grid info stride h w) ≡ new_grid info stride h w
  fitting info stride h w g true true e f c =
      c
      ∙ (ap (λ k. new_grid info stride k g.width) (e refl)
          ∙ ap (λ k. new_grid info stride h k) (f refl))
  fitting info stride h w g true false e f c = refl
  fitting info stride h w g false b e f c = refl

  -- A cached grid is as good as a new one.
  rays-new :
      (info : CameraInfo R) (stride h w : ℕ) (grid : Option (Grid R))
      → Cached (some info) stride grid
      → rays info stride grid h w ≡ new_grid info stride h w
  unfolding rays
  rays-new info stride h w none c = refl
  rays-new info stride h w (some g) c =
      fitting info stride h w g (g.height == h) (g.width == w) (eq_nat g.height h)
        (eq_nat g.width w) c

  rays-Cached :
      (info : CameraInfo R) (stride h w : ℕ) (grid : Option (Grid R))
      → Cached (some info) stride grid
      → Cached (some info) stride (some (rays info stride grid h w))
  rays-Cached info stride h w grid c =
      subst (λ g. g ≡ new_grid info stride g.height g.width) (sym (rays-new info stride h w grid c))
        (new_grid-size info stride h w)
    where
      new_grid-size :
          (info : CameraInfo R) (stride h w : ℕ)
          → new_grid info stride h w
            ≡ new_grid info stride
                (new_grid info stride h w).height
                (new_grid info stride h w).width
      new_grid-size info stride h w = unfold new_grid in refl

  project_depth-Cached :
      (info : CameraInfo R) (msg : Image) (depth : List (List R)) (d : DepthCloud R)
      → d.info ≡ some info
      → IsCached d
      → IsCached (project_depth info msg depth d).0
  unfolding project_depth
  project_depth-Cached info msg depth d e c =
      subst (λ o. Cached o d.stride (some (rays info d.stride d.grid msg.height msg.width))) (sym e)
        (rays-Cached info d.stride msg.height msg.width d.grid
          (subst (λ o. Cached o d.stride d.grid) e c))

  convert-Cached :
      (decoded : Option (Fallible DepthError (List (List R)))) (info : CameraInfo R) (msg : Image)
      (d : DepthCloud R)
      → d.info ≡ some info
      → IsCached d
      → IsCached (convert decoded info msg d).0
  unfolding convert
  convert-Cached none info msg d e c = c
  convert-Cached (some (err x)) info msg d e c = c
  convert-Cached (some (ok depth)) info msg d e c = project_depth-Cached info msg depth d e c

  on_depth_with-Cached :
      (info : Option (CameraInfo R)) (buffers : Buffers R) (now : R) (msg : Image)
      (d : DepthCloud R)
      → d.info ≡ info
      → IsCached d
      → IsCached (on_depth_with info buffers now msg d).0
  unfolding on_depth_with
  on_depth_with-Cached none buffers now msg d e c = c
  on_depth_with-Cached (some info) buffers now msg d e c = by_test ((now ⊖ d.last) <? d.period)
    where
      by_test :
          (b : Bool)
          → IsCached
              (if b
                then (d, ok none)
                else convert (decode buffers msg) info msg (record d { last = now })).0
      by_test true = c
      by_test false = convert-Cached (decode buffers msg) info msg (record d { last = now }) e c

  receive-IsCached :
      (buffers : Buffers R) (e : Message R) (d : DepthCloud R)
      → IsCached d
      → IsCached (receive buffers e d)
  unfolding on_info on_depth
  receive-IsCached buffers (informs info) d c = tt
  receive-IsCached buffers (shows now msg) d c =
      on_depth_with-Cached d.info buffers now msg d refl c

  pub receive_all-IsCached :
      (buffers : Buffers R) (es : List (Message R)) (d : DepthCloud R)
      → IsCached d
      → IsCached (receive_all buffers es d)
  receive_all-IsCached buffers [] d c = c
  receive_all-IsCached buffers (e ∷ es) d c =
      receive_all-IsCached buffers es (receive buffers e d) (receive-IsCached buffers e d c)

  -- A decoded image is published as the camera's points, whatever grid is cached.
  pub project_depth-publishes :
      (info : CameraInfo R) (msg : Image) (depth : List (List R)) (d : DepthCloud R)
      → Cached (some info) d.stride d.grid
      → Shaped msg.height msg.width depth
      → (project_depth info msg depth d).1
        ≡ ok (
            some (
              cloud_of (
                points_of info msg.height msg.width d.min_range d.max_range
                  (sampled d.stride depth))))
  unfolding project_depth
  project_depth-publishes info msg depth d c shape =
      rw
        (
          rays-new info d.stride msg.height msg.width d.grid c,
          select-points info msg.height msg.width d.min_range d.max_range d.stride depth shape.tall
              shape.wide,
        )
        refl
