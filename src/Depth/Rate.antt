-- ===== src/Depth/Rate.antt =====
-- The pace of nav2_wrapper/depth_cloud.py.
use service_navigation_rbnx.Base.{
  ◌≡◌, refl, sym, ap, ◌∙◌, subst, true, false, Option, none, some, List, [], ◌∷◌, All,
}
use service_navigation_rbnx.Float.{Float, ◌⊖◌, ◌<?◌}
use service_navigation_rbnx.Fallible.{Fallible, ok}
use service_navigation_rbnx.Depth.{
  CameraInfo, Image, DepthCloud, Cloud, DepthError, Buffers, decode, on_info, on_depth_with,
  on_depth,
}
use service_navigation_rbnx.Depth.Cache.{Message, informs, shows, receive_all}
use service_navigation_rbnx.Depth.Published.{convert-Kept, on_depth_with-Kept}

module _ {R : Type 0} ⦃fl : Float R⦄ where
  -- A frame that is handled within `period` of the time `t`; any other message.
  abbrev pub Within : R → R → Message R → Type 0
  Within t period (informs info) = Unit
  Within t period (shows now msg) = ((now ⊖ t) <? period) ≡ true

module _ {R : Type 0} ⦃fl : Float R⦄ (buffers : Buffers R) where
  -- What the frames among the messages publish or raise, the frames without effect included.
  abbrev pub outcomes :
      List (Message R) → DepthCloud R → List (Fallible DepthError (Option (Cloud R)))
  outcomes [] d = []
  outcomes (informs info ∷ es) d = outcomes es (on_info info d)
  outcomes (shows now msg ∷ es) d =
      (on_depth buffers now msg d).1 ∷ outcomes es (on_depth buffers now msg d).0

  early-dropped :
      (info : Option (CameraInfo R)) (now : R) (msg : Image) (d : DepthCloud R)
      → ((now ⊖ d.last) <? d.period) ≡ true
      → on_depth_with info buffers now msg d ≡ (d, ok none)
  unfolding on_depth_with
  early-dropped none now msg d early = refl
  early-dropped (some info) now msg d early = rw early refl

  burst_dropped :
      (es : List (Message R)) (d : DepthCloud R)
      → All (Within d.last d.period) es
      → All (λ o. o ≡ ok none) (outcomes es d) × ((receive_all buffers es d).last ≡ d.last)
  unfolding on_info on_depth
  burst_dropped [] d early = (tt, refl)
  burst_dropped (informs info ∷ es) d (_, early) = burst_dropped es (on_info info d) early
  burst_dropped (shows now msg ∷ es) d (e, early) =
      let dropped = early-dropped d.info now msg d e in
      let (quiet, same) = burst_dropped es d early in
      (
        (
          ap (λ r. r.1) dropped,
          subst (λ r. All (λ o. o ≡ ok none) (outcomes es r.0)) (sym dropped) quiet,
        ),
        ap (λ r. (receive_all buffers es r.0).last) dropped ∙ same,
      )

  started :
      (info : CameraInfo R) (now : R) (msg : Image) (d : DepthCloud R)
      → ((now ⊖ d.last) <? d.period) ≡ false
      → (on_depth_with (some info) buffers now msg d).0.last ≡ now
  unfolding on_depth_with
  started info now msg d due =
      let (_, _, same) =
        convert-Kept buffers (decode buffers msg) info msg (record d { last = now }) in
      rw due same

  -- Once a frame is handled at `now` (the node has intrinsics and the frame comes no earlier than a period
  -- after the one before), whether it is published, not supported or raises, of any messages that follow
  -- within the period of `now` no frame is published and none raises, and a frame after them is measured
  -- from `now` again.
  pub frames_spaced :
      (info : CameraInfo R) (now : R) (msg : Image) (d : DepthCloud R) (es : List (Message R))
      → d.info ≡ some info
      → ((now ⊖ d.last) <? d.period) ≡ false
      → All (Within now d.period) es
      → let next = (on_depth buffers now msg d).0 in
        All (λ o. o ≡ ok none) (outcomes es next) × ((receive_all buffers es next).last ≡ now)
  unfolding on_depth
  frames_spaced info now msg d es informed due within =
      let next : DepthCloud R = (on_depth buffers now msg d).0 in
      let at_now : next.last ≡ now =
        ap (λ o. (on_depth_with o buffers now msg d).0.last) informed
        ∙ started info now msg d due in
      let (k, _) = on_depth_with-Kept buffers d.info now msg d in
      let (quiet, same) = burst_dropped es next (
        subst (λ t. All (Within t next.period) es) (sym at_now)
          (subst (λ p. All (Within now p) es) (sym k.period_kept) within)) in
      (quiet, same ∙ at_now)
