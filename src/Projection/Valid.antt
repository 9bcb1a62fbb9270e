-- ===== src/Projection/Valid.antt =====
-- The scan projection settings that nav2_wrapper/configuration.py accepts.
use service_navigation_rbnx.Base.{
  String, Bool, true, false, ◌≡◌, refl, ◌↔◌, sym, ◌∙◌, Option, none, some, arith, if◌then◌else◌,
  Bool-cases, inl, inr,
}
use service_navigation_rbnx.Float.{Float, ◌<?◌, ◌≤?◌, whole}
use service_navigation_rbnx.Fallible.{Fallible, ok, err, ◌>>=◌}
use service_navigation_rbnx.Value.{
  Value, null, boolean, number, text, items, Fields, get, only_keys,
}
use service_navigation_rbnx.Projection.{
  Projection, ProjectionError, fields, normalized, checked, of_value, scan_projection_config,
}

module _ {R : Type 0} ⦃fl : Float R⦄ where
  -- The tests as Python makes them: a NaN passes each of them.
  pub record IsValid (p : Projection R) : Type 0 where
    pub heights : (p.max_height_m ≤? p.min_height_m) ≡ false
    pub range : (p.range_max_m <? whole 0) ≡ false
    pub margin : (p.self_filter_margin_m <? whole 0) ≡ false
    pub tolerance : (p.transform_tolerance_s <? whole 0) ≡ false
    pub wait : (p.deskew_wait_for_transform_s <? whole 0) ≡ false

  accepts_iff :
      (o : Fallible ProjectionError (Projection R)) (p : Projection R)
      → ((o >>= λ q. checked q >>= λ r. ok (some r)) ≡ ok (some p)) ↔ ((o ≡ ok p) × IsValid p)
  unfolding checked
  accepts_iff (ok q) p = (λ h. ground arith, λ h. ground arith)
  accepts_iff (err e) p = (λ h. cc, λ h. cc h.0)

  -- `of_value` on a mapping.
  reads :
      (str : Value R → String) (raw : Fields R) (known : Bool)
      → only_keys fields raw ≡ known
      → of_value str (some (Value.mapping raw)) ≡ (
          if known
          then (normalized str raw >>= λ q. checked q >>= λ r. ok (some r))
          else err ProjectionError.unknown_field)
  unfolding of_value
  reads str raw true h = rw (h, of_value) refl
  reads str raw false h = rw (h, of_value) refl

  -- A mapping is accepted as a scan projection exactly when it has no unknown field, every number can be
  -- read, and the settings, with the default for each field that is missing, meet the tests; the result
  -- is those settings.
  pub scan_projection_iff :
      (str : Value R → String) (cfg raw : Fields R) (p : Projection R)
      → get cfg "scan_projection" ≡ some (Value.mapping raw)
      → (scan_projection_config str cfg ≡ ok (some p))
        ↔ ((only_keys fields raw ≡ true) × (normalized str raw ≡ ok p) × IsValid p)
  unfolding scan_projection_config
  scan_projection_iff str cfg raw p at = elim (Bool-cases (only_keys fields raw)) [
    | inl known ↦
        rw (at, reads str raw true known, known)
          (
            λ h.
                let (read, valid) = (accepts_iff (normalized str raw) p).0 h in (refl, read, valid),
            λ (_, read, valid). (accepts_iff (normalized str raw) p).1 (read, valid),
          )
    | inr unknown ↦ rw (at, reads str raw false unknown, unknown) (λ h. cc, λ h. cc h.0)
  ]

  -- Whatever is accepted as a projection meets the tests.
  pub scan_projection_config-IsValid :
      (str : Value R → String) (cfg : Fields R) (p : Projection R)
      → scan_projection_config str cfg ≡ ok (some p)
      → IsValid p
  unfolding scan_projection_config of_value
  scan_projection_config-IsValid str cfg p h = by_value (get cfg "scan_projection") h
    where
      absurd :
          {A : Type 0} {a : A}
          → ◌≡◌ {A = Fallible ProjectionError A} (err ProjectionError.unknown_field) (ok a)
          → ⊥
      absurd e = cc

      by_value : (v : Option (Value R)) → of_value str v ≡ ok (some p) → IsValid p
      by_value none h = cc
      by_value (some null) h = cc
      by_value (some (boolean b)) h = cc
      by_value (some (number x)) h = cc
      by_value (some (text t)) h = cc
      by_value (some (items i)) h = cc
      by_value (some (Value.mapping raw)) h = elim (Bool-cases (only_keys fields raw)) [
        | inl known ↦
            ((accepts_iff (normalized str raw) p).0 (sym (reads str raw true known) ∙ h)).1
        | inr unknown ↦ elim (absurd (sym (reads str raw false unknown) ∙ h)) [ ]
      ]
