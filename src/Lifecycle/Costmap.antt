-- ===== src/Lifecycle/Costmap.antt =====
-- The parameters that `_send_full_costmap` of nav2_wrapper/atlas_bridge.py makes.
use service_navigation_rbnx.Base.{
  String, ◌≡◌, refl, true, some, arith, eq_iff, eq_refl, ap, ◌∙◌, Bool-cases, inl, inr, subst,
}
use service_navigation_rbnx.Float.{Float}
use service_navigation_rbnx.Value.{Value, Fields, end, field, get}
use service_navigation_rbnx.Bridge.Runs.{Outcome, raised, returned}
use service_navigation_rbnx.Lifecycle.Discovery.{◌>>=◌, section}
use service_navigation_rbnx.Lifecycle.Profile.{
  put, child, is_true, switch_on, switched, send_full_costmap,
}

bind-returned :
    {A B : Type 0} (m : Outcome A) (f : A → Outcome B) {b : B}
    → (m >>= f) ≡ returned b
    → (a : A) × (m ≡ returned a) × (f a ≡ returned b)
bind-returned (raised e) f h = cc
bind-returned (returned a) f h = (a, refl, h)

then_on :
    {A B : Type 0} (m : Outcome A) (f : A → Outcome B) (a : A) (b : Outcome B)
    → m ≡ returned a
    → f a ≡ b
    → (m >>= f) ≡ b
then_on m f a b e g = ap (λ o. o >>= f) e ∙ g

module _ {R : Type 0} where
  get-put : (d : Fields R) (k : String) (v : Value R) → get (put d k v) k ≡ some v
  unfolding get put
  get-put end k v = rw (eq_refl k) refl
  get-put (field j w d) k v = ground (arith, eq_refl k, eq_iff j k, get-put d k v)

  child-put :
      (d : Fields R) (k : String) (c : Fields R) → child (put d k (Value.mapping c)) k ≡ returned c
  unfolding child
  child-put d k c = ground (arith, get-put d k (Value.mapping c))

module _ {R : Type 0} ⦃fl : Float R⦄ where
  -- The switch of a document: the mappings that lead to it, and that it is on.
  pub record IsOn (document : Value R) : Type 0 where
    pub params : Fields R
    pub outer : Fields R
    pub inner : Fields R
    pub ros : Fields R
    pub is_mapping : section (some document) ≡ returned params
    pub at_outer : child params "global_costmap" ≡ returned outer
    pub at_inner : child outer "global_costmap" ≡ returned inner
    pub at_ros : child inner "ros__parameters" ≡ returned ros
    pub on : is_true (get ros "always_send_full_costmap") ≡ true

  switched-IsOn :
      (document : Value R) (params outer inner ros : Fields R)
      → section (some document) ≡ returned params
      → child params "global_costmap" ≡ returned outer
      → child outer "global_costmap" ≡ returned inner
      → child inner "ros__parameters" ≡ returned ros
      → IsOn (switched document params outer inner ros)
  unfolding switched switch_on section is_true
  switched-IsOn document params outer inner ros a b c d =
      elim (Bool-cases (is_true (get ros "always_send_full_costmap"))) [
        | inl e ↦ rw e (record {
          params = params;
          outer = outer;
          inner = inner;
          ros = ros;
          is_mapping = a;
          at_outer = b;
          at_inner = c;
          at_ros = d;
          on = e;
        })
        | inr e ↦ rw e (record {
          params = switch_on params outer inner ros;
          outer = _;
          inner = _;
          ros = _;
          is_mapping = refl;
          at_outer = child-put params "global_costmap" _;
          at_inner = child-put outer "global_costmap" _;
          at_ros = child-put inner "ros__parameters" _;
          on = rw (get-put ros "always_send_full_costmap" (Value.boolean true)) refl;
        })
      ]

  -- Where the parameters are read, Nav2 is started with ones in which the global costmap publishes its
  -- whole grid, and these are left as they are when they are read again.
  pub send_full_costmap-IsOn :
      (document result : Value R)
      → send_full_costmap document ≡ returned result
      → IsOn result × (send_full_costmap result ≡ returned result)
  unfolding send_full_costmap switched
  send_full_costmap-IsOn document result h =
      let (params, a, h₁) = bind-returned (section (some document)) _ h in
      let (outer, b, h₂) = bind-returned (child params "global_costmap") _ h₁ in
      let (inner, c, h₃) = bind-returned (child outer "global_costmap") _ h₂ in
      let (ros, d, h₄) = bind-returned (child inner "ros__parameters") _ h₃ in
      let same : switched document params outer inner ros ≡ result = ground arith in
      let on : IsOn result =
        subst IsOn same (switched-IsOn document params outer inner ros a b c d) in
      (on, stays result on)
    where
      stays : (v : Value R) → IsOn v → send_full_costmap v ≡ returned v
      stays v i = then_on _ _ i.params _ i.is_mapping (
          then_on _ _ i.outer _ i.at_outer
            (then_on _ _ i.inner _ i.at_inner (then_on _ _ i.ros _ i.at_ros (rw i.on refl))))
