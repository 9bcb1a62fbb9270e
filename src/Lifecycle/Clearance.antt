-- ===== src/Lifecycle/Clearance.antt =====
-- The body that nav2_wrapper/atlas_bridge.py keeps out of a projected scan.
mod Tests
use Prim.Native.String.{◌++◌}
use service_navigation_rbnx.Base.{
  String, Bool, true, false, not, ◌&&◌, ◌≡◌, ◌⊎◌, inl, inr, refl, sym, ap, subst, ◌∙◌, Bool-cases,
  List, [], ◌∷◌, if◌then◌else◌, All, arith, Option, some, none, ltb, length,
}
use service_navigation_rbnx.Float.{Float, FloatLaws, ◌⊕◌, ◌<?◌, ◌≤?◌, max, whole}
use service_navigation_rbnx.Text.{is_empty}
use service_navigation_rbnx.Fallible.{ok}
use service_navigation_rbnx.Value.{Value, Fields, get}
use service_navigation_rbnx.Bridge.Runs.{raised, returned}
use service_navigation_rbnx.Projection.{Projection, scan_projection_config}
use service_navigation_rbnx.Projection.Valid.{scan_projection_config-IsValid}
use service_navigation_rbnx.Lifecycle.Soma.{Footprint, Body, radius_from, all_finite, body_of}
use service_navigation_rbnx.Lifecycle.Commands.{projector_range_min, projector_args}

abbrev pub In : String → List String → Type 0
In arg [] = ⊥
In arg (x ∷ xs) = (arg ≡ x) ⊎ In arg xs

module _ {R : Type 0} ⦃fl : Float R⦄ where
  -- The distance of a corner.
  abbrev pub reach : R × R → R
  reach c = fl.hypot c.0 c.1

  abbrev pub IsFinite : R → Type 0
  IsFinite x = fl.is_finite x ≡ true

module _ {R : Type 0} ⦃fl : Float R⦄ (laws : FloatLaws R) where
  record Covers (r out : R) (cs : List (R × R)) : Type 0 where
    finite : IsFinite out
    grows : (r ≤? out) ≡ true
    within : All (λ c. (reach c ≤? out) ≡ true) cs

  max-bounds :
      (a b : R)
      → IsFinite a
      → IsFinite b
      → IsFinite (max a b) × ((a ≤? max a b) ≡ true) × ((b ≤? max a b) ≡ true)
  max-bounds a b fa fb = elim (Bool-cases (a <? b)) [
    | inl less ↦ rw less (fb, laws.lt-le a b less, laws.is_finite-le b fb)
    | inr more ↦ rw more (
      fa,
      laws.is_finite-le a fa,
      laws.le_of_not_lt a b (laws.is_finite-le a fa) (laws.is_finite-le b fb) more,
    )
  ]

  radius_from-Covers :
      (r : R) (cs : List (R × R))
      → IsFinite r
      → All (λ c. IsFinite (reach c)) cs
      → Covers r (radius_from r cs) cs
  unfolding radius_from
  radius_from-Covers r [] fr fs = record {
    finite = fr;
    grows = laws.is_finite-le r fr;
    within = tt;
  }
  radius_from-Covers r (c ∷ cs) fr (f, fs) =
      let (fm, first, second) = max-bounds r (reach c) fr f in
      let later = radius_from-Covers (max r (reach c)) cs fm fs in
      record {
        finite = later.finite;
        grows = laws.le_trans r (max r (reach c)) _ first later.grows;
        within = (laws.le_trans (reach c) (max r (reach c)) _ second later.grows, later.within);
      }

  radius_lem :
      (f : Footprint R) (b : Body R)
      → body_of f ≡ returned b
      → b.radius ≡ radius_from (whole 0) f.points
  unfolding body_of
  radius_lem f b made = ground arith

  reached_by :
      (cs : List (R × R)) {a b : R}
      → All (λ c. (reach c ≤? a) ≡ true) cs
      → (a ≤? b) ≡ true
      → All (λ c. (reach c ≤? b) ≡ true) cs
  reached_by [] h le = tt
  reached_by (c ∷ cs) (h, hs) le = (laws.le_trans (reach c) _ _ h le, reached_by cs hs le)

  pub projector_args-clear_body :
      (str : Value R → String) (cfg : Fields R) (f : Footprint R) (b : Body R) (p : Projection R)
      (cloud : String)
      → body_of f ≡ returned b
      → scan_projection_config str cfg ≡ ok (some p)
      → IsFinite p.self_filter_margin_m
      → All (λ c. IsFinite (reach c)) f.points
      → In ("range_min:=" ++ fl.format_f 3 (projector_range_min b p)) (projector_args str cloud b p)
        × All (λ c. (reach c ≤? projector_range_min b p) ≡ true) f.points
  unfolding projector_args projector_range_min
  projector_args-clear_body str cfg f b p cloud made accepted fm fs =
      let covers = radius_from-Covers (whole 0) f.points laws.is_finite-zero fs in
      let radius = radius_lem f b made in
      let finite_radius = subst IsFinite (sym radius) covers.finite in
      let margin =
        laws.le_of_not_lt p.self_filter_margin_m (whole 0) (laws.is_finite-le _ fm)
          (laws.is_finite-le _ laws.is_finite-zero)
          (scan_projection_config-IsValid str cfg p accepted).margin in
      let beyond = laws.le-add_nonneg b.radius p.self_filter_margin_m finite_radius fm margin in
      (
        inr (
            inr (
              inr (
                inr (
                  inr (
                    inr (
                      inr (
                        inr (
                          inr (
                            inr (
                              inr (
                                inr (
                                  inr (
                                    inr (inr (inr (inr (inr (inr (inr (inl refl)))))))))))))))))))),
        reached_by f.points
            (subst (λ r. All (λ c. (reach c ≤? r) ≡ true) f.points) (sym radius) covers.within)
            beyond,
      )
