-- ===== src/Lifecycle/Stopped.antt =====
-- What nav2_wrapper/atlas_bridge.py has stopped: the processes that are not running, and what the two
-- functions that stop them leave.
use service_navigation_rbnx.Base.{
  String, ◌≡◌, Bool, true, false, Option, none, some, List, All, arith, if◌then◌else◌,
}
use service_navigation_rbnx.Bridge.Runs.{Outcome, raised, returned}
use service_navigation_rbnx.Lifecycle.Process.{
  Process, Host, stop_group, stop_running, discard, stopped, kill_scan_projector, kill_nav2, Action,
  after, Popen, spawn, spawn_watched, keep_deskew, keep_projector, keep_filter, keep_depth_cloud,
  keep_monitor, keep_guard, keep_nav2,
}

-- The process behind the handle does not run; its children may.
abbrev pub Dead : Option Process → Type 0
Dead none = Unit
Dead (some p) = p.parent ≡ false

abbrev pub LostDead : Host → Type 0
LostDead h = All (λ p. p.parent ≡ false) h.lost

-- What is not running, from the last process that is started to all of them.
abbrev pub BeforeNav2 : Host → Type 0
BeforeNav2 h = LostDead h × Dead h.nav2

abbrev pub BeforeMonitor : Host → Type 0
BeforeMonitor h = BeforeNav2 h × Dead h.collision_monitor

abbrev pub BeforeGuard : Host → Type 0
BeforeGuard h = BeforeMonitor h × Dead h.velocity_guard

abbrev pub BeforeDepth : Host → Type 0
BeforeDepth h = BeforeGuard h × Dead h.depth_cloud

abbrev pub BeforeFilter : Host → Type 0
BeforeFilter h = BeforeDepth h × Dead h.scan_filter

abbrev pub BeforeProjector : Host → Type 0
BeforeProjector h = BeforeFilter h × Dead h.scan_projector

abbrev pub Quiet : Host → Type 0
Quiet h = BeforeProjector h × Dead h.scan_deskew

stop_group-dead : (p : Process) → (stop_group p).parent ≡ false
unfolding stop_group
stop_group-dead p = ground arith

stop_running-dead : (p : Process) → (stop_running p).parent ≡ false
unfolding stop_running
stop_running-dead p = ground arith

stopped-Dead :
    (stop : Process → Process)
    → ((p : Process) → (stop p).parent ≡ false)
    → (o : Option Process) → Dead (stopped stop o)
stopped-Dead stop h none = tt
stopped-Dead stop h (some p) = h p

discard-Dead :
    (o : Option Process) (lost : List Process)
    → Dead o
    → All (λ p. p.parent ≡ false) lost
    → All (λ p. p.parent ≡ false) (discard o lost)
discard-Dead none lost d ds = ds
discard-Dead (some p) lost d ds = (d, ds)

pub kill_scan_projector-LostDead : (h : Host) → LostDead h → LostDead (kill_scan_projector h)
unfolding kill_scan_projector
kill_scan_projector-LostDead h lost =
    discard-Dead (stopped stop_group h.scan_projector) _
      (stopped-Dead stop_group stop_group-dead h.scan_projector)
      (discard-Dead (stopped stop_group h.scan_deskew) _
        (stopped-Dead stop_group stop_group-dead h.scan_deskew)
        (discard-Dead (stopped stop_group h.scan_filter) _
          (stopped-Dead stop_group stop_group-dead h.scan_filter) lost))

pub kill_nav2-Quiet : (h : Host) → LostDead h → Quiet (kill_nav2 h)
unfolding kill_nav2
kill_nav2-Quiet h lost = (((((((by_helpers, gone h.nav2), tt), tt), tt), tt), tt), tt)
  where
    gone : (o : Option Process) → Dead (stopped stop_running o)
    gone o = stopped-Dead stop_running stop_running-dead o

    by_helpers : LostDead (kill_nav2 h)
    by_helpers = discard-Dead (stopped stop_running h.depth_cloud) _ (gone h.depth_cloud) (
        discard-Dead (stopped stop_running h.collision_monitor) _ (gone h.collision_monitor) (
          discard-Dead (stopped stop_running h.velocity_guard) _ (gone h.velocity_guard)
            (kill_scan_projector-LostDead h lost)))

-- What an action leaves: `Q` where it returns, and nothing lost that runs where it raises.
abbrev pub Leaves : {A : Type 0} → (Host → Type 0) → Host × Outcome A → Type 0
Leaves Q (h, raised e) = LostDead h
Leaves Q (h, returned a) = Q h

pub after-Leaves :
    {A B : Type 0} (Q S : Host → Type 0) (r : Host × Outcome A) (k : A → Action B)
    → Leaves Q r
    → ((a : A) (h : Host) → Q h → Leaves S (k a h))
    → Leaves S (after r k)
after-Leaves Q S (h, raised e) k q next = q
after-Leaves Q S (h, returned a) k q next = next a h q

pub lift-Leaves :
    {A B : Type 0} (S : Host → Type 0) (o : Outcome A) (k : A → Action B) (h : Host)
    → LostDead h
    → ((a : A) → Leaves S (k a h))
    → Leaves S (after (h, o) k)
lift-Leaves S (raised e) k h lost next = lost
lift-Leaves S (returned a) k h lost next = next a

pub spawn-Leaves :
    (Q : Host → Type 0) (popen : Popen) (keep : Process → Host → Host) (h : Host)
    → LostDead h
    → ((p : Process) → Q (keep p h))
    → Leaves Q (spawn popen keep h)
spawn-Leaves Q (Popen.started p) keep h lost kept = kept p
spawn-Leaves Q Popen.not_found keep h lost kept = lost
spawn-Leaves Q (Popen.failed e) keep h lost kept = lost

watched :
    (Q : Host → Type 0) (p : Process) (b : Bool) (h : Host) (gone : String)
    → LostDead h
    → Q h
    → Leaves Q (if b then (h, returned tt) else (kill_scan_projector h, raised gone))
watched Q p true h gone lost q = q
watched Q p false h gone lost q = kill_scan_projector-LostDead h lost

pub spawn_watched-Leaves :
    (Q : Host → Type 0) (popen : Popen) (keep : Process → Host → Host) (missing : Action (Unit {0}))
    (gone : String) (h : Host)
    → LostDead h
    → ((p : Process) → LostDead (keep p h) × Q (keep p h))
    → Leaves Q (missing h)
    → Leaves Q (spawn_watched popen keep missing gone h)
spawn_watched-Leaves Q (Popen.started p) keep missing gone h lost kept m =
    watched Q p p.parent (keep p h) gone (kept p).0 (kept p).1
spawn_watched-Leaves Q Popen.not_found keep missing gone h lost kept m = m
spawn_watched-Leaves Q (Popen.failed e) keep missing gone h lost kept m = lost

-- Each handle that is set takes the place of one behind which nothing runs.
pub deskew_kept : (p : Process) (h : Host) → Quiet h → BeforeProjector (keep_deskew p h)
deskew_kept p h ((((((((lost, n), m), g), d), f), s)), k) =
    ((((((discard-Dead h.scan_deskew h.lost k lost, n), m), g), d), f), s)

pub projector_kept :
    (p : Process) (h : Host) → BeforeProjector h → BeforeFilter (keep_projector p h)
projector_kept p h ((((((lost, n), m), g), d), f), s) =
    (((((discard-Dead h.scan_projector h.lost s lost, n), m), g), d), f)

pub filter_kept : (p : Process) (h : Host) → BeforeFilter h → BeforeDepth (keep_filter p h)
filter_kept p h (((((lost, n), m), g), d), f) =
    ((((discard-Dead h.scan_filter h.lost f lost, n), m), g), d)

pub depth_cloud_kept : (p : Process) (h : Host) → BeforeDepth h → BeforeGuard (keep_depth_cloud p h)
depth_cloud_kept p h ((((lost, n), m), g), d) =
    (((discard-Dead h.depth_cloud h.lost d lost, n), m), g)

pub guard_kept : (p : Process) (h : Host) → BeforeGuard h → BeforeMonitor (keep_guard p h)
guard_kept p h (((lost, n), m), g) = ((discard-Dead h.velocity_guard h.lost g lost, n), m)

pub monitor_kept : (p : Process) (h : Host) → BeforeMonitor h → BeforeNav2 (keep_monitor p h)
monitor_kept p h ((lost, n), m) = (discard-Dead h.collision_monitor h.lost m lost, n)

pub nav2_kept : (p : Process) (h : Host) → BeforeNav2 h → LostDead (keep_nav2 p h)
nav2_kept p h (lost, n) = discard-Dead h.nav2 h.lost n lost
