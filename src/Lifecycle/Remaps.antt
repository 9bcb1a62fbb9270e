-- ===== src/Lifecycle/Remaps.antt =====
-- The bindings that `_build_remap_args` of nav2_wrapper/atlas_bridge.py writes and `_binding_value` reads.
use service_navigation_rbnx.Base.{
  ◌≡◌, refl, sym, ap, ◌∙◌, String, true, false, Option, List, [], ◌∷◌, ◌++◌, drop, length, arith,
}
use service_navigation_rbnx.Float.{Float}
use service_navigation_rbnx.Text.{codes}
use service_navigation_rbnx.Replace.{Code, is_prefix}
use service_navigation_rbnx.Value.{Value, Fields, get}
use service_navigation_rbnx.Params.{binding_prefix, binding_value}
use service_navigation_rbnx.Bridge.Runs.{returned}
use service_navigation_rbnx.Lifecycle.Discovery.{
  binding, bind_one, lack_one, section, endpoint, bind_all, build_remap_args,
}

prefix_append : (p s : Code) → is_prefix p (p ++ s) ≡ true
unfolding is_prefix
prefix_append [] s = refl
prefix_append (c ∷ p) s = ground (arith, prefix_append p s)

drop_append : (p s : Code) → drop (length p) (p ++ s) ≡ s
drop_append [] s = refl
drop_append (c ∷ p) s = drop_append p s

append_assoc : (a b c : Code) → (a ++ b) ++ c ≡ a ++ (b ++ c)
append_assoc [] b c = refl
append_assoc (x ∷ a) b c = ap (λ r. x ∷ r) (append_assoc a b c)

binding_split : (key ep : String) → binding key ep ≡ binding_prefix key ++ codes ep
unfolding binding binding_prefix
binding_split key ep = sym (append_assoc (codes key) (codes ":=") (codes ep))

reads_first :
    (key : String) (ep : Code) (bs : List Code)
    → binding_value ((binding_prefix key ++ ep) ∷ bs) key ≡ ep
unfolding binding_value
reads_first key ep bs =
    ground (arith, prefix_append (binding_prefix key) ep, drop_append (binding_prefix key) ep)

reads_row :
    (key ep : String) (bs : List Code)
    → binding_value bs key ≡ []
    → binding_value (bind_one key ep bs) key ≡ codes ep
unfolding codes
reads_row key String.[] bs h = h
reads_row key (String.◌∷◌ c s) bs h =
    rw (binding_split key (String.◌∷◌ c s)) (reads_first key (codes (String.◌∷◌ c s)) bs)

-- No binding of the one key reads as one of the other.
abbrev Differs : String → String → Type 0
Differs key k = (ep : String) → is_prefix (binding_prefix key) (binding k ep) ≡ false

skips_row :
    (key k ep : String) (bs : List Code)
    → Differs key k
    → binding_value (bind_one k ep bs) key ≡ binding_value bs key
unfolding binding_value
skips_row key k String.[] bs d = refl
skips_row key k (String.◌∷◌ c s) bs d = ground (arith, d (String.◌∷◌ c s))

append_row : (k ep : String) (bs cs : List Code) → bind_one k ep bs ++ cs ≡ bind_one k ep (bs ++ cs)
append_row k String.[] bs cs = refl
append_row k (String.◌∷◌ c s) bs cs = refl

-- The four endpoints read back from the bindings.
pub record ReadBack (bindings : List Code) (map odom scan scan_cloud : String) : Type 0 where
  pub map_topic : binding_value bindings "map" ≡ codes map
  pub odom_topic : binding_value bindings "odom" ≡ codes odom
  pub scan_topic : binding_value bindings "scan" ≡ codes scan
  pub cloud_topic : binding_value bindings "scan_cloud" ≡ codes scan_cloud

abbrev rows : String → String → String → String → List Code
rows m o s c = bind_one "map" m (bind_one "odom" o (bind_one "scan" s (bind_one "scan_cloud" c [])))

rows-ReadBack : (m o s c : String) → ReadBack (rows m o s c) m o s c
unfolding binding binding_prefix codes is_prefix binding_value
rows-ReadBack m o s c = record {
  map_topic = reads_row "map" m _ (
      skips_row "map" "odom" o _ (λ _. refl)
      ∙ (skips_row "map" "scan" s _ (λ _. refl) ∙ skips_row "map" "scan_cloud" c _ (λ _. refl)));
  odom_topic =
      skips_row "odom" "map" m _ (λ _. refl)
      ∙ reads_row "odom" o _
          (skips_row "odom" "scan" s _ (λ _. refl) ∙ skips_row "odom" "scan_cloud" c _ (λ _. refl));
  scan_topic =
      skips_row "scan" "map" m _ (λ _. refl)
      ∙ (skips_row "scan" "odom" o _ (λ _. refl)
          ∙ reads_row "scan" s _ (skips_row "scan" "scan_cloud" c _ (λ _. refl)));
  cloud_topic =
      skips_row "scan_cloud" "map" m _ (λ _. refl)
      ∙ (skips_row "scan_cloud" "odom" o _ (λ _. refl)
          ∙ (skips_row "scan_cloud" "scan" s _ (λ _. refl) ∙ reads_row "scan_cloud" c _ refl));
}

module _ {R : Type 0} ⦃fl : Float R⦄ (str : Value R → String)
    (resolve : String → String → Option String) where
  abbrev topic : Fields R → Fields R → String → String → String
  topic overrides providers key contract = endpoint str resolve overrides providers (key, contract)

  -- Where the two sections of the config are mappings, each of the four topics that were found, be it by
  -- an override or through Atlas, is read back under its key from the bindings, an absent one as empty,
  -- and the contracts reported as missing are those of the map and the odometry without a topic.
  pub build_remap_args-ReadBack :
      (cfg overrides providers : Fields R)
      → section (get cfg "topic_remap") ≡ returned overrides
      → section (get cfg "provider_ids") ≡ returned providers
      → let m = topic overrides providers "map" "robonix/service/map/occupancy_grid" in
        let o = topic overrides providers "odom" "robonix/primitive/chassis/odom" in
        let s = topic overrides providers "scan" "robonix/primitive/lidar/lidar" in
        let c = topic overrides providers "scan_cloud" "robonix/primitive/lidar/lidar3d" in
        (bindings : List Code) × (build_remap_args str resolve cfg
          ≡ returned (
            bindings,
            lack_one "robonix/service/map/occupancy_grid" m
                (lack_one "robonix/primitive/chassis/odom" o []),
          ))
        × ReadBack bindings m o s c
  unfolding build_remap_args bind_all
  build_remap_args-ReadBack cfg overrides providers e f =
      let m = topic overrides providers "map" "robonix/service/map/occupancy_grid" in
      let o = topic overrides providers "odom" "robonix/primitive/chassis/odom" in
      let s = topic overrides providers "scan" "robonix/primitive/lidar/lidar" in
      let c = topic overrides providers "scan_cloud" "robonix/primitive/lidar/lidar3d" in
      (
        bind_one "map" m (bind_one "odom" o []) ++ bind_one "scan" s (bind_one "scan_cloud" c []),
        rw (e, f) refl,
        rw
            (
              append_row "map" m (bind_one "odom" o [])
                  (bind_one "scan" s (bind_one "scan_cloud" c [])),
              append_row "odom" o [] (bind_one "scan" s (bind_one "scan_cloud" c [])),
            )
            (rows-ReadBack m o s c),
      )
