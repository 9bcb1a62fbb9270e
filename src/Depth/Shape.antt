-- ===== src/Depth/Shape.antt =====
-- The shape of the images that nav2_wrapper/depth_cloud.py decodes.
use service_navigation_rbnx.Base.{
  ℕ, zero, suc, ◌+◌, ◌-◌, ◌*◌, ◌/◌, ◌≤◌, ◌≡◌, refl, String, Bool, true, false, ◌||◌, none, some,
  List, [], ◌∷◌, map, ◌=?◌, if◌then◌else◌, length, take, drop, All, arith, ap, subst, ◌∙◌,
}
use service_navigation_rbnx.Float.{Float, ◌⊗◌}
use service_navigation_rbnx.Fallible.{ok, or_raise, bind-ok}
use service_navigation_rbnx.Depth.{
  Image, Buffers, bad_buffer, rows_of, reshape, columns, metres, millimetres, decode,
}

-- `height` rows of `width` items
pub record Shaped {A : Type 0} (height width : ℕ) (image : List (List A)) : Type 0 where
  pub tall : length image ≡ height
  pub wide : All (λ row. length row ≡ width) image

module _ {A : Type 0} where
  length-take : (n : ℕ) (xs : List A) → n ≤ length xs → length (take n xs) ≡ n
  length-take zero xs h = refl
  length-take (suc n) [] h = omega arith
  length-take (suc n) (x ∷ xs) h = ap suc (length-take n xs (omega arith))

  length-drop : (n : ℕ) (xs : List A) → length (drop n xs) ≡ length xs - n
  length-drop zero xs = omega arith
  length-drop (suc n) [] = omega arith
  length-drop (suc n) (x ∷ xs) = ground (arith, length-drop n xs)

  length-rows_of : (h w : ℕ) (xs : List A) → length (rows_of h w xs) ≡ h
  unfolding rows_of
  length-rows_of zero w xs = refl
  length-rows_of (suc h) w xs = ap suc (length-rows_of h w (drop w xs))

  rows_of-lengths :
      (h w : ℕ) (xs : List A) → length xs ≡ h * w → All (λ row. length row ≡ w) (rows_of h w xs)
  unfolding rows_of
  rows_of-lengths zero w xs e = tt
  rows_of-lengths (suc h) w xs e =
      let product : suc h * w ≡ w + h * w = omega arith in
      (
        length-take w xs (omega arith),
        rows_of-lengths h w (drop w xs) (omega (arith, length-drop w xs)),
      )

  length-map : {B : Type 0} (f : A → B) (xs : List A) → length (map f xs) ≡ length xs
  length-map f [] = refl
  length-map f (x ∷ xs) = ap suc (length-map f xs)

  reshape-Shaped :
      (h w : ℕ) (xs : List A) (rows : List (List A)) → reshape h w xs ≡ ok rows → Shaped h w rows
  unfolding reshape
  reshape-Shaped h w xs rows e =
      let counted : length xs ≡ h * w = ground arith in
      let made : rows_of h w xs ≡ rows = ground arith in
      subst (Shaped h w) made
        (record { tall = length-rows_of h w xs; wide = rows_of-lengths h w xs counted })

  length-columns : (w : ℕ) (rows : List (List A)) → length (columns w rows) ≡ length rows
  unfolding columns
  length-columns w [] = refl
  length-columns w (row ∷ rows) = ap suc (length-columns w rows)

  columns-lengths :
      (w n : ℕ) (rows : List (List A))
      → w ≤ n
      → All (λ row. length row ≡ n) rows
      → All (λ row. length row ≡ w) (columns w rows)
  unfolding columns
  columns-lengths w n [] h es = tt
  columns-lengths w n (row ∷ rows) h (e, es) =
      (length-take w row (omega arith), columns-lengths w n rows h es)

  columns-Shaped :
      (h w n : ℕ) (rows : List (List A)) → w ≤ n → Shaped h n rows → Shaped h w (columns w rows)
  columns-Shaped h w n rows le s = record {
    tall = length-columns w rows ∙ s.tall;
    wide = columns-lengths w n rows le s.wide;
  }

map-lengths :
    {A B : Type 0} (f : A → B) (w : ℕ) (rows : List (List A))
    → All (λ row. length row ≡ w) rows
    → All (λ row. length row ≡ w) (map (map f) rows)
map-lengths f w [] h = tt
map-lengths f w (row ∷ rows) (e, es) = (length-map f row ∙ e, map-lengths f w rows es)

map-Shaped :
    {A B : Type 0} (f : A → B) (h w : ℕ) (rows : List (List A))
    → Shaped h w rows
    → Shaped h w (map (map f) rows)
map-Shaped f h w rows s = record {
  tall = length-map (map f) rows ∙ s.tall;
  wide = map-lengths f w rows s.wide;
}

-- The bytes of an item of an image.
abbrev pub item_size : String → ℕ
item_size encoding = if (encoding =? "32FC1") || (encoding =? "32fc1") then 4 else 2

module _ {R : Type 0} ⦃fl : Float R⦄ (buffers : Buffers R) where
  metres-Shaped :
      (msg : Image) (depth : List (List R))
      → msg.width ≤ msg.step / 4
      → metres buffers msg ≡ ok depth
      → Shaped msg.height msg.width depth
  unfolding metres
  metres-Shaped msg depth le e =
      let (xs, _, e₁) = bind-ok (or_raise (buffers.float32 msg.bytes) bad_buffer) _ e in
      let (rows, shaped, e₂) = bind-ok (reshape msg.height (msg.step / 4) xs) _ e₁ in
      let same : columns msg.width rows ≡ depth = ground arith in
      subst (Shaped msg.height msg.width) same (
        columns-Shaped msg.height msg.width (msg.step / 4) rows le
          (reshape-Shaped msg.height (msg.step / 4) xs rows shaped))

  millimetres-Shaped :
      (msg : Image) (depth : List (List R))
      → msg.width ≤ msg.step / 2
      → millimetres buffers msg ≡ ok depth
      → Shaped msg.height msg.width depth
  unfolding millimetres
  millimetres-Shaped msg depth le e =
      let (xs, _, e₁) = bind-ok (or_raise (buffers.uint16 msg.bytes) bad_buffer) _ e in
      let (rows, shaped, e₂) = bind-ok (reshape msg.height (msg.step / 2) xs) _ e₁ in
      let same : map (map (λ d. d ⊗ fl.decimal 1 3)) (columns msg.width rows) ≡ depth =
        ground arith in
      subst (Shaped msg.height msg.width) same (
        map-Shaped (λ d. d ⊗ fl.decimal 1 3) msg.height msg.width (columns msg.width rows)
          (columns-Shaped msg.height msg.width (msg.step / 2) rows le
            (reshape-Shaped msg.height (msg.step / 2) xs rows shaped)))

  -- An image whose rows have room for its width decodes to depths of its height and width.
  pub decode-Shaped :
      (msg : Image) (depth : List (List R))
      → msg.width ≤ msg.step / item_size msg.encoding
      → decode buffers msg ≡ some (ok depth)
      → Shaped msg.height msg.width depth
  unfolding decode
  decode-Shaped msg depth le e =
      by_test ((msg.encoding =? "32FC1") || (msg.encoding =? "32fc1"))
        ((msg.encoding =? "16UC1") || (msg.encoding =? "mono16")) le e
    where
      by_test :
          (b c : Bool)
          → msg.width ≤ msg.step / (if b then 4 else 2)
          → (if b
              then some (metres buffers msg)
              else if c
              then some (millimetres buffers msg)
              else none)
            ≡ some (ok depth)
          → Shaped msg.height msg.width depth
      by_test true c le e = metres-Shaped msg depth le (ground arith)
      by_test false true le e = millimetres-Shaped msg depth le (ground arith)
      by_test false false le e = cc
