-- ===== src/Depth/Published.antt =====
-- What nav2_wrapper/depth_cloud.py publishes after any messages.
use service_navigation_rbnx.Base.{
  ℕ, ◌≤◌, ◌/◌, ◌≡◌, refl, sym, ap, ◌∙◌, subst, Bool, true, false, Option, none, some, List, [], ◌∷◌,
  if◌then◌else◌,
}
use service_navigation_rbnx.Float.{Float, ◌⊖◌, ◌<?◌}
use service_navigation_rbnx.Fallible.{Fallible, ok, err}
use service_navigation_rbnx.Depth.{
  CameraInfo, Image, DepthCloud, Cloud, DepthError, Buffers, decode, cloud_of, on_info,
  project_depth, convert, on_depth_with, on_depth,
}
use service_navigation_rbnx.Depth.Points.{points_of, sampled}
use service_navigation_rbnx.Depth.Shape.{item_size, decode-Shaped}
use service_navigation_rbnx.Depth.Cache.{
  Message, informs, shows, Cached, IsCached, receive_all, receive_all-IsCached,
  project_depth-publishes,
}

module _ {R : Type 0} where
  -- The intrinsics of the last message that gave some.
  abbrev pub latest : Option (CameraInfo R) → List (Message R) → Option (CameraInfo R)
  latest info [] = info
  latest info (informs new ∷ es) = latest (some new) es
  latest info (shows now msg ∷ es) = latest info es

  -- The settings, which no message changes.
  pub record Kept (d e : DepthCloud R) : Type 0 where
    pub stride_kept : e.stride ≡ d.stride
    pub low_kept : e.min_range ≡ d.min_range
    pub high_kept : e.max_range ≡ d.max_range
    pub period_kept : e.period ≡ d.period

  abbrev unchanged : (d : DepthCloud R) → Kept d d
  unchanged d = record { stride_kept = refl; low_kept = refl; high_kept = refl; period_kept = refl }

  kept_trans : {a b c : DepthCloud R} → Kept a b → Kept b c → Kept a c
  kept_trans p q = record {
    stride_kept = q.stride_kept ∙ p.stride_kept;
    low_kept = q.low_kept ∙ p.low_kept;
    high_kept = q.high_kept ∙ p.high_kept;
    period_kept = q.period_kept ∙ p.period_kept;
  }

module _ {R : Type 0} ⦃fl : Float R⦄ (buffers : Buffers R) where
  pub convert-Kept :
      (decoded : Option (Fallible DepthError (List (List R)))) (info : CameraInfo R) (msg : Image)
      (d : DepthCloud R)
      → Kept d (convert decoded info msg d).0
        × ((convert decoded info msg d).0.info ≡ d.info)
        × ((convert decoded info msg d).0.last ≡ d.last)
  unfolding convert project_depth
  convert-Kept none info msg d = (unchanged d, refl, refl)
  convert-Kept (some (err x)) info msg d = (unchanged d, refl, refl)
  convert-Kept (some (ok depth)) info msg d = (
    record { stride_kept = refl; low_kept = refl; high_kept = refl; period_kept = refl },
    refl,
    refl,
  )

  pub on_depth_with-Kept :
      (info : Option (CameraInfo R)) (now : R) (msg : Image) (d : DepthCloud R)
      → Kept d (on_depth_with info buffers now msg d).0
        × ((on_depth_with info buffers now msg d).0.info ≡ d.info)
  unfolding on_depth_with
  on_depth_with-Kept none now msg d = (unchanged d, refl)
  on_depth_with-Kept (some info) now msg d = by_test ((now ⊖ d.last) <? d.period)
    where
      by_test :
          (b : Bool)
          → let r =
              (if b
                then (d, ok none)
                else convert (decode buffers msg) info msg (record d { last = now })) in
            Kept d r.0 × (r.0.info ≡ d.info)
      by_test true = (unchanged d, refl)
      by_test false =
          let (k, same, _) = convert-Kept (decode buffers msg) info msg (record d { last = now }) in
          (
            record {
              stride_kept = k.stride_kept;
              low_kept = k.low_kept;
              high_kept = k.high_kept;
              period_kept = k.period_kept;
            },
            same,
          )

  receive_all-Kept :
      (es : List (Message R)) (d : DepthCloud R)
      → Kept d (receive_all buffers es d) × ((receive_all buffers es d).info ≡ latest d.info es)
  unfolding on_info on_depth
  receive_all-Kept [] d = (unchanged d, refl)
  receive_all-Kept (informs info ∷ es) d =
      let (k, same) = receive_all-Kept es (on_info info d) in
      (
        record {
          stride_kept = k.stride_kept;
          low_kept = k.low_kept;
          high_kept = k.high_kept;
          period_kept = k.period_kept;
        },
        same,
      )
  receive_all-Kept (shows now msg ∷ es) d =
      let (k, same) = on_depth_with-Kept d.info now msg d in
      let (k₁, same₁) = receive_all-Kept es (on_depth buffers now msg d).0 in
      (kept_trans k k₁, same₁ ∙ ap (λ o. latest o es) same)

  on_depth_with-publishes :
      (info : CameraInfo R) (now : R) (msg : Image) (depth : List (List R)) (d : DepthCloud R)
      → Cached (some info) d.stride d.grid
      → ((now ⊖ d.last) <? d.period) ≡ false
      → decode buffers msg ≡ some (ok depth)
      → msg.width ≤ msg.step / item_size msg.encoding
      → (on_depth_with (some info) buffers now msg d).1
        ≡ ok (
            some (
              cloud_of (
                points_of info msg.height msg.width d.min_range d.max_range
                  (sampled d.stride depth))))
  unfolding on_depth_with convert
  on_depth_with-publishes info now msg depth d c due decoded room =
      rw (due, decoded)
        (project_depth-publishes info msg depth (record d { last = now }) c
          (decode-Shaped buffers msg depth room decoded))

  -- The node has no cached rays at its start and then handles any messages. If the last message with
  -- intrinsics gave `info`, then an image that is not within the period of the frame before, that decodes
  -- to `depth`, and whose rows have room for its width, is published as one cloud. Its points are those
  -- that the camera's model under `info` gives the pixels in every `stride`-th row and column whose depth
  -- is finite and in the node's range, in reading order: no cached rays of other intrinsics or of another
  -- size have an effect.
  pub on_depth-points :
      (node : DepthCloud R) (es : List (Message R)) (info : CameraInfo R) (now : R) (msg : Image)
      (depth : List (List R))
      → node.grid ≡ none
      → latest node.info es ≡ some info
      → ((now ⊖ (receive_all buffers es node).last) <? node.period) ≡ false
      → decode buffers msg ≡ some (ok depth)
      → msg.width ≤ msg.step / item_size msg.encoding
      → (on_depth buffers now msg (receive_all buffers es node)).1
        ≡ ok (
            some (
              cloud_of (
                points_of info msg.height msg.width node.min_range node.max_range
                  (sampled node.stride depth))))
  unfolding on_depth
  on_depth-points node es info now msg depth e last due decoded room =
      let d : DepthCloud R = receive_all buffers es node in
      let (k, same) = receive_all-Kept es node in
      let informed : d.info ≡ some info = same ∙ last in
      let start : IsCached node = subst (λ g. Cached node.info node.stride g) (sym e) tt in
      let cached : IsCached d = receive_all-IsCached buffers es node start in
      let shown =
        on_depth_with-publishes info now msg depth d
          (subst (λ o. Cached o d.stride d.grid) informed cached)
          (ap (λ p. (now ⊖ d.last) <? p) k.period_kept ∙ due) decoded room in
      ap (λ o. (on_depth_with o buffers now msg d).1) informed
      ∙ (shown ∙ settings k.stride_kept k.low_kept k.high_kept)
    where
      settings :
          {s s₁ : ℕ} {l l₁ h h₁ : R}
          → s ≡ s₁
          → l ≡ l₁
          → h ≡ h₁
          → ◌≡◌ {A = Fallible DepthError (Option (Cloud R))}
              (ok (some (cloud_of (points_of info msg.height msg.width l h (sampled s depth)))))
              (ok (some (cloud_of (points_of info msg.height msg.width l₁ h₁ (sampled s₁ depth)))))
      settings p q r = cc
