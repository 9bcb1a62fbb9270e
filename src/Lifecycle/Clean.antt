-- ===== src/Lifecycle/Clean.antt =====
-- The start-up of nav2_wrapper/atlas_bridge.py leaves nothing running behind it when it fails.
use service_navigation_rbnx.Base.{
  String, Bool, true, false, Option, none, some, List, [], ◌++◌, is_some, Bool-cases, inl, inr,
}
use service_navigation_rbnx.Float.{Float}
use service_navigation_rbnx.Value.{Value, Fields, get}
use service_navigation_rbnx.Replace.{Code}
use service_navigation_rbnx.Text.{codes}
use service_navigation_rbnx.Params.{no_code, binding_value, occurs, token_prefix}
use service_navigation_rbnx.Topic.{resolve_velocity_output_topic}
use service_navigation_rbnx.Bridge.Runs.{Outcome, raised, returned}
use service_navigation_rbnx.Lifecycle.Discovery.{section}
use service_navigation_rbnx.Lifecycle.Soma.{Body}
use service_navigation_rbnx.Lifecycle.Files.{resolve_params_file, resolve_bt_xml_file}
use service_navigation_rbnx.Lifecycle.Profile.{send_full_costmap, pin_collision_monitor}
use service_navigation_rbnx.Lifecycle.Process.{
  Host, Popen, spawn, when, choose, pure, raise, lift, keep_deskew, keep_projector, keep_filter,
  keep_depth_cloud, keep_guard, keep_monitor, keep_nav2, ◌>>=◌, ◌>>◌,
}
use service_navigation_rbnx.Lifecycle.Scan.{
  ScanStarts, start_deskew, start_projector, start_filter, start_scan, project, prepare_scan,
  is_projecting, is_deskewing, projection_of,
}
use service_navigation_rbnx.Lifecycle.Spawn.{
  Surroundings, body, topic_text, controller_topic, patched, if_present, polygon, filled,
  binding_tokens, depth_cloud_start, start_depth_cloud, fill_tokens, materialize_params,
  spawn_velocity_guard, spawn_nav2,
}
use service_navigation_rbnx.Lifecycle.Stopped.{
  LostDead, BeforeNav2, BeforeMonitor, BeforeGuard, BeforeDepth, BeforeFilter, BeforeProjector,
  Quiet, Leaves, after-Leaves, lift-Leaves, spawn-Leaves, spawn_watched-Leaves,
  kill_scan_projector-LostDead, deskew_kept, projector_kept, filter_kept, depth_cloud_kept,
  guard_kept, monitor_kept, nav2_kept,
}

start_deskew-Leaves :
    (popen : Popen) (h : Host) → Quiet h → Leaves BeforeProjector (start_deskew popen h)
unfolding start_deskew
start_deskew-Leaves popen h q =
    spawn_watched-Leaves BeforeProjector popen keep_deskew _ _ h q.0.0.0.0.0.0.0
      (λ p. ((deskew_kept p h q).0.0.0.0.0.0, deskew_kept p h q)) q.0.0.0.0.0.0.0

start_projector-Leaves :
    (popen : Popen) (h : Host) → BeforeProjector h → Leaves BeforeFilter (start_projector popen h)
unfolding start_projector
start_projector-Leaves popen h q =
    spawn_watched-Leaves BeforeFilter popen keep_projector _ _ h q.0.0.0.0.0.0
      (λ p. ((projector_kept p h q).0.0.0.0.0, projector_kept p h q))
      (kill_scan_projector-LostDead h q.0.0.0.0.0.0)

start_filter-Leaves :
    (popen : Popen) (h : Host) → BeforeFilter h → Leaves BeforeDepth (start_filter popen h)
unfolding start_filter
start_filter-Leaves popen h q =
    spawn_watched-Leaves BeforeDepth popen keep_filter _ _ h q.0.0.0.0.0
      (λ p. ((filter_kept p h q).0.0.0.0, filter_kept p h q)) q.0.0.0.0.0

when_deskewing :
    (b : Bool) (popen : Popen) (h : Host)
    → Quiet h
    → Leaves BeforeProjector (when b (start_deskew popen) h)
when_deskewing true popen h q = start_deskew-Leaves popen h q
when_deskewing false popen h q = q.0

start_scan-Leaves :
    (b : Bool) (s : ScanStarts) (h : Host) → Quiet h → Leaves BeforeDepth (start_scan b s h)
unfolding start_scan
start_scan-Leaves b s h q =
    after-Leaves BeforeProjector BeforeDepth (when b (start_deskew s.deskew) h) _
      (when_deskewing b s.deskew h q)
      (λ _ i r.
        after-Leaves BeforeFilter BeforeDepth (start_projector s.projector i) _
          (start_projector-Leaves s.projector i r) (λ _ j t. start_filter-Leaves s.filter j t))

module _ {R : Type 0} where
  project-Leaves :
      (soma : Outcome (Body R)) (s : ScanStarts) (b : Bool) (bindings : List Code) (h : Host)
      → Quiet h
      → Leaves BeforeDepth (project soma s b bindings h)
  unfolding project
  project-Leaves soma s b bindings h q =
      elim (Bool-cases (no_code (binding_value bindings "scan_cloud"))) [
        | inl e ↦ rw e q.0.0.0.0.0.0.0
        | inr e ↦ elim (Bool-cases (is_projecting h)) [
          | inl f ↦ rw (e, f) q.0.0.0
          | inr f ↦
              rw (e, f)
                (lift-Leaves BeforeDepth soma _ h q.0.0.0.0.0.0.0 (λ _.
                  after-Leaves BeforeDepth BeforeDepth (start_scan b s h) _
                    (start_scan-Leaves b s h q) (λ _ i r. r)))
        ]
      ]

module _ {R : Type 0} ⦃fl : Float R⦄ (str : Value R → String) where
  project_or_pass :
      (c : Bool) (soma : Outcome (Body R)) (s : ScanStarts) (b : Bool) (bindings : List Code)
      (h : Host)
      → Quiet h
      → Leaves BeforeDepth (choose c (project soma s b bindings) (pure bindings) h)
  project_or_pass true soma s b bindings h q = project-Leaves soma s b bindings h q
  project_or_pass false soma s b bindings h q = q.0.0.0

  pub prepare_scan-Leaves :
      (cfg : Fields R) (soma : Outcome (Body R)) (s : ScanStarts) (bindings : List Code) (h : Host)
      → Quiet h
      → Leaves BeforeDepth (prepare_scan str cfg soma s bindings h)
  unfolding prepare_scan
  prepare_scan-Leaves cfg soma s bindings h q =
      lift-Leaves BeforeDepth (projection_of str cfg) _ h q.0.0.0.0.0.0.0
        (λ p. project_or_pass _ soma s (is_deskewing str p) bindings h q)

module _ {R : Type 0} ⦃fl : Float R⦄ (str : Value R → String) (around : Surroundings R) where
  depth_cloud_start-Leaves :
      (cfg : Fields R) (image info : Option String) (h : Host)
      → BeforeDepth h
      → Leaves BeforeGuard (depth_cloud_start str around cfg image info h)
  unfolding depth_cloud_start
  depth_cloud_start-Leaves cfg (some image) (some info) h q =
      lift-Leaves BeforeGuard (section (get cfg "depth_obstacles")) _ h q.0.0.0.0 (λ _.
        after-Leaves BeforeGuard BeforeGuard (spawn around.depth_cloud keep_depth_cloud h) _
          (spawn-Leaves BeforeGuard around.depth_cloud keep_depth_cloud h q.0.0.0.0
            (λ p. depth_cloud_kept p h q))
          (λ _ i r. r))
  depth_cloud_start-Leaves cfg (some image) none h q = q.0.0.0.0
  depth_cloud_start-Leaves cfg none info h q = q.0.0.0.0

  start_depth_cloud-Leaves :
      (cfg : Fields R) (h : Host)
      → BeforeDepth h
      → Leaves BeforeGuard (start_depth_cloud str around cfg h)
  unfolding start_depth_cloud
  start_depth_cloud-Leaves cfg h q =
      lift-Leaves BeforeGuard (section (get cfg "provider_ids")) _ h q.0.0.0.0
        (λ _. depth_cloud_start-Leaves cfg _ _ h q)

  footprint_entry :
      (b : Bool) (o : Outcome (Body R)) (f : Code → List (Code × Code)) (h : Host)
      → BeforeDepth h
      → Leaves BeforeDepth
          (choose b ((lift o >>= λ v. pure (codes v.polygon)) >>= λ v. pure (f v)) (pure []) h)
  footprint_entry true (raised e) f h q = q.0.0.0.0
  footprint_entry true (returned v) f h q = q
  footprint_entry false o f h q = q

  depth_entry :
      (b : Bool) (cfg : Fields R) (f : Code → List (Code × Code)) (h : Host)
      → BeforeDepth h
      → Leaves BeforeGuard
          (choose b (start_depth_cloud str around cfg >>= λ v. pure (f v)) (pure []) h)
  depth_entry true cfg f h q =
      after-Leaves BeforeGuard BeforeGuard (start_depth_cloud str around cfg h) _
        (start_depth_cloud-Leaves cfg h q) (λ _ i r. r)
  depth_entry false cfg f h q = q.0

  fill_tokens-Leaves :
      (cfg : Fields R) (bindings : List Code) (text : Code) (h : Host)
      → BeforeDepth h
      → Leaves BeforeGuard (fill_tokens str around cfg bindings text h)
  unfolding fill_tokens
  fill_tokens-Leaves cfg bindings text h q =
      lift-Leaves BeforeGuard (resolve_bt_xml_file str around.locate cfg) _ h q.0.0.0.0 (λ bt.
        after-Leaves BeforeDepth BeforeGuard
          (if_present str around (codes "__ROBONIX_FOOTPRINT__") text (polygon str around) h) _
          (footprint_entry (occurs (codes "__ROBONIX_FOOTPRINT__") text) (body str around) _ h q)
          (λ footprint i r.
            after-Leaves BeforeGuard BeforeGuard
              (if_present str around (codes "__ROBONIX_DEPTH_CLOUD_TOPIC__") text
                (start_depth_cloud str around cfg) i)
              _ (depth_entry (occurs (codes "__ROBONIX_DEPTH_CLOUD_TOPIC__") text) cfg _ i r)
              (λ depth j t.
                lift-Leaves BeforeGuard
                  (filled str around (binding_tokens str around bindings bt ++ (footprint ++ depth))
                    text)
                  _ j t.0.0.0 (λ _. t))))

  materialize_params-Leaves :
      (cfg : Fields R) (bindings : List Code) (h : Host)
      → BeforeDepth h
      → Leaves BeforeGuard (materialize_params str around cfg bindings h)
  unfolding materialize_params
  materialize_params-Leaves cfg bindings h q =
      lift-Leaves BeforeGuard (resolve_params_file str around.locate cfg) _ h q.0.0.0.0 (λ source.
        lift-Leaves BeforeGuard (around.read source) _ h q.0.0.0.0
          (λ text. chosen (occurs token_prefix text) text))
    where
      chosen :
          (b : Bool) (text : Code)
          → Leaves BeforeGuard
              (choose b (fill_tokens str around cfg bindings text) (pure (text, bindings)) h)
      chosen true text = fill_tokens-Leaves cfg bindings text h q
      chosen false text = q.0

  guard_chosen :
      (ready : Bool) (h : Host)
      → BeforeGuard h
      → Leaves BeforeMonitor (
          choose ready
            (spawn around.guard keep_guard)
            (raise "dynamic speed settings are not initialized")
            h)
  guard_chosen true h q =
      spawn-Leaves BeforeMonitor around.guard keep_guard h q.0.0.0 (λ p. guard_kept p h q)
  guard_chosen false h q = q.0.0.0

  spawn_velocity_guard-Leaves :
      (cfg : Fields R) (ready : Bool) (h : Host)
      → BeforeGuard h
      → Leaves BeforeMonitor (spawn_velocity_guard str around cfg ready h)
  unfolding spawn_velocity_guard
  spawn_velocity_guard-Leaves cfg ready h q =
      lift-Leaves BeforeMonitor
        (topic_text (resolve_velocity_output_topic str cfg around.topic_environment)) _ h q.0.0.0
        (λ _. guard_chosen ready h q)

  when_monitored :
      (b : Bool) (h : Host)
      → BeforeMonitor h
      → Leaves BeforeNav2 (when b (spawn around.monitor keep_monitor) h)
  when_monitored true h q =
      spawn-Leaves BeforeNav2 around.monitor keep_monitor h q.0.0 (λ p. monitor_kept p h q)
  when_monitored false h q = q.0

  start_both :
      (b : Bool) (launch : Code) (h : Host)
      → BeforeMonitor h
      → Leaves LostDead (
          (when b (spawn around.monitor keep_monitor)
              >> (spawn around.nav2 keep_nav2 >> pure launch))
            h)
  start_both b launch h q =
      after-Leaves BeforeNav2 LostDead (when b (spawn around.monitor keep_monitor) h) _
        (when_monitored b h q)
        (λ _ i r.
          after-Leaves LostDead LostDead (spawn around.nav2 keep_nav2 i) _
            (spawn-Leaves LostDead around.nav2 keep_nav2 i r.0 (λ p. nav2_kept p i r)) (λ _ j t. t))

  pub spawn_nav2-Leaves :
      (cfg : Fields R) (ready : Bool) (remaps : List Code) (h : Host)
      → BeforeDepth h
      → Leaves LostDead (spawn_nav2 str around cfg ready remaps h)
  unfolding spawn_nav2
  spawn_nav2-Leaves cfg ready remaps h q =
      lift-Leaves LostDead (controller_topic str around cfg) _ h q.0.0.0.0 (λ controller.
        after-Leaves BeforeGuard LostDead (materialize_params str around cfg remaps h) _
          (materialize_params-Leaves cfg remaps h q)
          (λ params i r. lift-Leaves LostDead (around.load params.0) _ i r.0.0.0 (λ document.
            lift-Leaves LostDead (send_full_costmap document) _ i r.0.0.0 (λ costmap.
              lift-Leaves LostDead (pin_collision_monitor costmap) _ i r.0.0.0
                (λ monitor. guarded controller (is_some monitor) i r)))))
    where
      launched :
          (controller : Option String) (b : Bool) (i : Host)
          → BeforeMonitor i
          → Leaves LostDead (
              (lift around.launch_text >>= λ original.
              lift (patched str around controller b original) >>= λ launch.
              when b (spawn around.monitor keep_monitor)
              >> (spawn around.nav2 keep_nav2 >> pure launch))
                i)
      launched controller b i r = lift-Leaves LostDead around.launch_text _ i r.0.0 (λ original.
          lift-Leaves LostDead (patched str around controller b original) _ i r.0.0
            (λ launch. start_both b launch i r))

      guarded :
          (controller : Option String) (b : Bool) (i : Host)
          → BeforeGuard i
          → Leaves LostDead (
              (spawn_velocity_guard str around cfg ready
                  >> (lift around.launch_text >>= λ original.
                      lift (patched str around controller b original) >>= λ launch.
                      when b (spawn around.monitor keep_monitor)
                      >> (spawn around.nav2 keep_nav2 >> pure launch)))
                i)
      guarded controller b i r =
          after-Leaves BeforeMonitor LostDead (spawn_velocity_guard str around cfg ready i) _
            (spawn_velocity_guard-Leaves cfg ready i r) (λ _ j t. launched controller b j t)
