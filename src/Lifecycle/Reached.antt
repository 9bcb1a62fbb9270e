-- ===== src/Lifecycle/Reached.antt =====
-- The processes of nav2_wrapper/atlas_bridge.py through any sequence of the driver's commands.
use service_navigation_rbnx.Base.{
  String, ◌≡◌, refl, Bool, true, false, Option, none, some, List, [], ◌∷◌, All, arith, Bool-cases,
  inl, inr, if◌then◌else◌,
}
use service_navigation_rbnx.Float.{Float, min, whole}
use service_navigation_rbnx.Value.{Value, Fields, get}
use service_navigation_rbnx.Replace.{Code}
use service_navigation_rbnx.Topic.{
  TopicResult, accepted, rejected, resolve_velocity_output_topic, validate_text,
}
use service_navigation_rbnx.Speed.Settings.{SpeedSettings, Result, ok, err, speed_settings}
use service_navigation_rbnx.Bridge.State.{Bridge}
use service_navigation_rbnx.Bridge.Runs.{Outcome, raised, returned}
use service_navigation_rbnx.Bridge.Limit.{Publish, publish_speed_limit}
use service_navigation_rbnx.Lifecycle.Process.{Process, Host}
use service_navigation_rbnx.Lifecycle.Scan.{prepare_scan}
use service_navigation_rbnx.Lifecycle.Spawn.{Surroundings, body}
use service_navigation_rbnx.Lifecycle.Init.{
  Reply, Wrapper, Waits, action_wait, apply_first, wait_ready, spawn_all, after_spawn, after_remaps,
  after_wait, after_tests, init, shutdown, reset_speed,
}
use service_navigation_rbnx.Lifecycle.Stopped.{
  Dead, LostDead, BeforeDepth, Quiet, Leaves, after-Leaves, kill_nav2-Quiet,
}
use service_navigation_rbnx.Lifecycle.Clean.{prepare_scan-Leaves, spawn_nav2-Leaves}

-- No process runs whose handle is lost, and before a start-up has succeeded none runs at all.
pub record Tidy {R H : Type 0} (w : Wrapper R H) : Type 0 where
  pub lost : LostDead w.host
  pub quiet : w.bridge.initialized ≡ false → Quiet w.host

-- Some processes exit by themselves.
pub record Exits (f : Process → Process) : Type 0 where
  pub stays : (p : Process) → p.parent ≡ false → (f p).parent ≡ false

abbrev pub through : (Process → Process) → Option Process → Option Process
through f none = none
through f (some p) = some (f p)

abbrev pub through_all : (Process → Process) → List Process → List Process
through_all f [] = []
through_all f (p ∷ ps) = f p ∷ through_all f ps

abbrev pub exit : (Process → Process) → Host → Host
exit f h = record {
  scan_projector = through f h.scan_projector;
  scan_deskew = through f h.scan_deskew;
  scan_filter = through f h.scan_filter;
  depth_cloud = through f h.depth_cloud;
  collision_monitor = through f h.collision_monitor;
  velocity_guard = through f h.velocity_guard;
  nav2 = through f h.nav2;
  lost = through_all f h.lost;
}

module _ {R H : Type 0} ⦃fl : Float R⦄ (str : Value R → String) where
  -- The driver's commands, in any surroundings, and the processes that exit in between.
  pub data Step : Wrapper R H → Wrapper R H → Type 0 where
    starts :
        (around : Surroundings R) (cfg : Fields R) (waits : Waits R) (w : Wrapper R H)
        → Step w (init str around cfg waits w).0
    ends : (w : Wrapper R H) → Step w (shutdown w).0
    exits :
        (f : Process → Process) (w : Wrapper R H)
        → Exits f
        → Step w (record w { host = exit f w.host })

  pub data Reach (v : Wrapper R H) : Wrapper R H → Type 0 where
    here : Reach v v
    next : {w u : Wrapper R H} → Reach v w → Step w u → Reach v u

exit-Dead : (f : Process → Process) → Exits f → (o : Option Process) → Dead o → Dead (through f o)
exit-Dead f e none d = tt
exit-Dead f e (some p) d = e.stays p d

exit_lost :
    (f : Process → Process)
    → Exits f
    → (ps : List Process) → All (λ p. p.parent ≡ false) ps
    → All (λ p. p.parent ≡ false) (through_all f ps)
exit_lost f e [] d = tt
exit_lost f e (p ∷ ps) (d, ds) = (e.stays p d, exit_lost f e ps ds)

exit-Quiet : (f : Process → Process) → Exits f → (h : Host) → Quiet h → Quiet (exit f h)
exit-Quiet f e h (((((((lost, n), m), g), d), s), p), k) = (
  (
    (
      (
        (
          (
            (exit_lost f e h.lost lost, exit-Dead f e h.nav2 n),
            exit-Dead f e h.collision_monitor m,
          ),
          exit-Dead f e h.velocity_guard g,
        ),
        exit-Dead f e h.depth_cloud d,
      ),
      exit-Dead f e h.scan_filter s,
    ),
    exit-Dead f e h.scan_projector p,
  ),
  exit-Dead f e h.scan_deskew k,
)

-- What `init` leaves: a success loses nothing that runs, and otherwise nothing runs.
abbrev pub Left : {R H : Type 0} → Wrapper R H × Reply → Type 0
Left (w, Reply.done) = LostDead w.host × (w.bridge.initialized ≡ true)
Left (w, _) = Quiet w.host

module _ {R H : Type 0} ⦃fl : Float R⦄ where
  apply_first-Left :
      (publish : Publish) (h : Host) (b : Bridge R H) → LostDead h → Left (apply_first publish h b)
  unfolding apply_first publish_speed_limit
  apply_first-Left Publish.delivered h b lost = (lost, refl)
  apply_first-Left (Publish.nav2_only e) h b lost = kill_nav2-Quiet h lost
  apply_first-Left (Publish.unsent e) h b lost = kill_nav2-Quiet h lost

  wait_ready-Left :
      (timeout : R) (waits : Waits R) (h : Host) (b : Bridge R H)
      → LostDead h
      → Left (wait_ready timeout waits h b)
  unfolding wait_ready
  wait_ready-Left timeout waits h b lost = elim (Bool-cases (waits.action_up timeout)) [
    | inr e ↦ rw e (kill_nav2-Quiet h lost)
    | inl e ↦ elim (Bool-cases (waits.subscribed (min timeout (whole 10)))) [
      | inr f ↦ rw (e, f) (kill_nav2-Quiet h lost)
      | inl f ↦ rw (e, f) (apply_first-Left waits.publish h _ lost)
    ]
  ]

  spawned-Left :
      (timeout : R) (waits : Waits R) (b : Bridge R H) (r : Host × Outcome Code)
      → Leaves LostDead r
      → Left (after_spawn timeout waits b r)
  unfolding after_spawn
  spawned-Left timeout waits b (h, raised e) lost = kill_nav2-Quiet h lost
  spawned-Left timeout waits b (h, returned text) lost = wait_ready-Left timeout waits h b lost

module _ {R : Type 0} ⦃fl : Float R⦄ (str : Value R → String) (around : Surroundings R) where
  spawn_all-Leaves :
      (cfg : Fields R) (remaps : List Code) (h : Host)
      → Quiet h
      → Leaves LostDead (spawn_all str around cfg remaps h)
  unfolding spawn_all
  spawn_all-Leaves cfg remaps h q =
      after-Leaves BeforeDepth LostDead
        (prepare_scan str cfg (body str around) around.scan remaps h) _
        (prepare_scan-Leaves str cfg (body str around) around.scan remaps h q)
        (λ bindings i r. spawn_nav2-Leaves str around cfg true bindings i r)

module _ {R H : Type 0} ⦃fl : Float R⦄ (str : Value R → String) (around : Surroundings R) where
  remaps-Left :
      (timeout : R) (cfg : Fields R) (waits : Waits R) (h : Host) (b : Bridge R H)
      (remaps : Outcome (List Code × List String))
      → Quiet h
      → Left (after_remaps str around timeout cfg waits h b remaps)
  unfolding after_remaps
  remaps-Left timeout cfg waits h b (raised e) q = q
  remaps-Left timeout cfg waits h b (returned (remaps, c ∷ cs)) q = q
  remaps-Left timeout cfg waits h b (returned (remaps, [])) q =
      spawned-Left timeout waits b (spawn_all str around cfg remaps h)
        (spawn_all-Leaves str around cfg remaps h q)

  wait-Left :
      (timeout : Option R) (cfg : Fields R) (waits : Waits R) (h : Host) (b : Bridge R H)
      → Quiet h
      → Left (after_wait str around timeout cfg waits h b)
  unfolding after_wait
  wait-Left none cfg waits h b q = q
  wait-Left (some timeout) cfg waits h b q = remaps-Left timeout cfg waits h b _ q

  settings-Left :
      (s : SpeedSettings R) (r : TopicResult) (cfg : Fields R) (waits : Waits R) (w : Wrapper R H)
      → Quiet w.host
      → Left {R = R} {H = H} (elim r [
        | rejected e ↦ (w, Reply.failed "invalid dynamic_speed config")
        | accepted t ↦
            after_wait str around
              (action_wait (get cfg "action_wait_s"))
              cfg
              waits
              w.host
              (record w.bridge { speed = reset_speed s w.bridge.speed })
      ])
  settings-Left s (rejected e) cfg waits w q = q
  settings-Left s (accepted t) cfg waits w q = wait-Left _ cfg waits w.host _ q

  tests-Left :
      (r : TopicResult) (o : Result (SpeedSettings R)) (cfg : Fields R) (waits : Waits R)
      (w : Wrapper R H)
      → Quiet w.host
      → Left (after_tests str around r o cfg waits w)
  unfolding after_tests
  tests-Left (rejected e) o cfg waits w q = q
  tests-Left (accepted t) (err e) cfg waits w q = q
  tests-Left (accepted t) (ok s) cfg waits w q =
      settings-Left s (validate_text s.topic) cfg waits w q

  init-Left :
      (cfg : Fields R) (waits : Waits R) (w : Wrapper R H)
      → Tidy w
      → Left (init str around cfg waits w)
  unfolding init
  init-Left cfg waits w t =
      chosen w.bridge.initialized refl
        (after_tests str around (resolve_velocity_output_topic str cfg around.topic_environment)
          (speed_settings str cfg) cfg waits w)
        (λ e. tests-Left _ _ cfg waits w (t.quiet e))
    where
      chosen :
          (b : Bool)
          → w.bridge.initialized ≡ b
          → (r : Wrapper R H × Reply) → (b ≡ false → Left r)
          → Left (if b then (w, Reply.done) else r)
      chosen true e r otherwise = (t.lost, e)
      chosen false e r otherwise = otherwise refl

Left-Tidy : {R H : Type 0} (r : Wrapper R H × Reply) → Left r → Tidy r.0
Left-Tidy (w, Reply.done) (lost, e) = record { lost = lost; quiet = λ f. ground (arith, e, f) }
Left-Tidy (w, Reply.failed why) q = record { lost = q.0.0.0.0.0.0.0; quiet = λ _. q }
Left-Tidy (w, Reply.deferred cs) q = record { lost = q.0.0.0.0.0.0.0; quiet = λ _. q }
Left-Tidy (w, Reply.uncaught) q = record { lost = q.0.0.0.0.0.0.0; quiet = λ _. q }

module _ {R H : Type 0} ⦃fl : Float R⦄ (str : Value R → String) where
  step-Tidy : {w u : Wrapper R H} → Step str w u → Tidy w → Tidy u
  unfolding shutdown
  step-Tidy (Step.starts around cfg waits w) t =
      Left-Tidy (init str around cfg waits w) (init-Left str around cfg waits w t)
  step-Tidy (Step.ends w) t = record {
    lost = (kill_nav2-Quiet w.host t.lost).0.0.0.0.0.0.0;
    quiet = λ _. kill_nav2-Quiet w.host t.lost;
  }
  step-Tidy (Step.exits f w e) t = record {
    lost = exit_lost f e w.host.lost t.lost;
    quiet = λ i. exit-Quiet f e w.host (t.quiet i);
  }

  pub Reach-Tidy : {w u : Wrapper R H} → Quiet w.host → Reach str w u → Tidy u
  Reach-Tidy q Reach.here = record { lost = q.0.0.0.0.0.0.0; quiet = λ _. q }
  Reach-Tidy q (Reach.next r s) = step-Tidy s (Reach-Tidy q r)

  pub shutdown-Quiet :
      {w u : Wrapper R H} → Quiet w.host → Reach str w u → Quiet (shutdown u).0.host
  unfolding shutdown
  shutdown-Quiet {u} q r = kill_nav2-Quiet u.host (Reach-Tidy q r).lost
