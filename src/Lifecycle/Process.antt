-- ===== src/Lifecycle/Process.antt =====
-- The processes of nav2_wrapper/atlas_bridge.py and how it stops them. Each is started with a process
-- group of its own; `parent` says whether the process itself runs and `children` whether others of its
-- group do. What a process does on SIGTERM within the five seconds that the code waits is its own
-- choice; SIGKILL ends the whole group.
use service_navigation_rbnx.Base.{
  String, Bool, true, false, not, ◌&&◌, ◌||◌, Option, none, some, List, ◌∷◌, if◌then◌else◌,
}
use service_navigation_rbnx.Bridge.Runs.{Outcome, raised, returned}

pub record Process : Type 0 where
  pub parent : Bool
  pub children : Bool
  pub parent_heeds : Bool
  pub children_heed : Bool

-- The handles in the module's variables, and the processes whose handle is gone.
pub record Host : Type 0 where
  pub scan_projector : Option Process
  pub scan_deskew : Option Process
  pub scan_filter : Option Process
  pub depth_cloud : Option Process
  pub collision_monitor : Option Process
  pub velocity_guard : Option Process
  pub nav2 : Option Process
  pub lost : List Process

-- `os.killpg(pid, signal.SIGTERM)`, and the wait
abbrev pub terminate : Process → Process
terminate p = record p {
  parent = p.parent && not p.parent_heeds;
  children = p.children && not p.children_heed;
}

-- `os.killpg(pid, signal.SIGKILL)`
abbrev pub kill : Process → Process
kill p = record p { parent = false; children = false }

-- SIGTERM, a wait for the process, and SIGKILL if it is still there.
abbrev pub end : Process → Process
end p = if (terminate p).parent then kill (terminate p) else terminate p

-- The body of the loop of `_kill_scan_projector`: where the group is gone, `killpg` raises
-- `ProcessLookupError`.
unfoldable pub stop_group : Process → Process
stop_group p = if p.parent || p.children then end p else p

-- The same for the other processes, which are left alone once `poll()` has a return code.
unfoldable pub stop_running : Process → Process
stop_running p = if p.parent then end p else p

-- A handle that is overwritten or forgotten.
abbrev pub discard : Option Process → List Process → List Process
discard none lost = lost
discard (some p) lost = p ∷ lost

abbrev pub stopped : (Process → Process) → Option Process → Option Process
stopped stop none = none
stopped stop (some p) = some (stop p)

-- `_kill_scan_projector`
unfoldable pub kill_scan_projector : Host → Host
unfolding stop_group
kill_scan_projector h = record h {
  scan_projector = none;
  scan_deskew = none;
  scan_filter = none;
  lost = discard (stopped stop_group h.scan_projector) (
      discard (stopped stop_group h.scan_deskew)
        (discard (stopped stop_group h.scan_filter) h.lost));
}

-- `_kill_nav2`; the handle of Nav2 is kept.
unfoldable pub kill_nav2 : Host → Host
unfolding kill_scan_projector stop_running
kill_nav2 h =
    let s = kill_scan_projector h in
    record s {
      depth_cloud = none;
      collision_monitor = none;
      velocity_guard = none;
      nav2 = stopped stop_running s.nav2;
      lost = discard (stopped stop_running s.depth_cloud) (
          discard (stopped stop_running s.collision_monitor)
            (discard (stopped stop_running s.velocity_guard) s.lost));
    }

-- An action on the processes that may raise.
abbrev pub Action : Type 0 → Type 0
Action A = Host → Host × Outcome A

infixl 5 ◌>>=◌ ◌>>◌
abbrev pub after : {A B : Type 0} → Host × Outcome A → (A → Action B) → Host × Outcome B
after (h, raised e) k = (h, raised e)
after (h, returned a) k = k a h

abbrev pub ◌>>=◌ : {A B : Type 0} → Action A → (A → Action B) → Action B
(m >>= k) h = after (m h) k

abbrev pub ◌>>◌ : {A B : Type 0} → Action A → Action B → Action B
m >> k = m >>= λ _. k

abbrev pub pure : {A : Type 0} → A → Action A
pure a h = (h, returned a)

abbrev pub raise : {A : Type 0} → String → Action A
raise e h = (h, raised e)

-- A result that is computed elsewhere, with the exception that it may be.
abbrev pub lift : {A : Type 0} → Outcome A → Action A
lift o h = (h, o)

-- What `subprocess.Popen` does: the process as it is when it is next looked at, or an exception.
pub data Popen : Type 0 where
  started : Process → Popen
  not_found : Popen
  failed : String → Popen

-- Runs an action only where a test holds.
abbrev pub when : Bool → Action (Unit {0}) → Action (Unit {0})
when true m = m
when false m = pure tt

abbrev pub choose : {A : Type 0} → Bool → Action A → Action A → Action A
choose true m k = m
choose false m k = k

-- A process that is started, and kept by `keep`.
abbrev pub spawn : Popen → (Process → Host → Host) → Action (Unit {0})
spawn (started p) keep h = (keep p h, returned tt)
spawn not_found keep h = (h, raised "no such file or directory")
spawn (failed e) keep h = (h, raised e)

-- One of the processes of a projected scan, looked at 0.25 seconds later: where it has exited, all of
-- them are stopped.
abbrev pub spawn_watched :
    Popen → (Process → Host → Host) → Action (Unit {0}) → String → Action (Unit {0})
spawn_watched (started p) keep missing gone h =
    if p.parent then (keep p h, returned tt) else (kill_scan_projector (keep p h), raised gone)
spawn_watched not_found keep missing gone h = missing h
spawn_watched (failed e) keep missing gone h = (h, raised e)

-- `_x_proc = subprocess.Popen(…)`: an earlier handle is overwritten.
abbrev pub keep_deskew : Process → Host → Host
keep_deskew p h = record h { scan_deskew = some p; lost = discard h.scan_deskew h.lost }

abbrev pub keep_projector : Process → Host → Host
keep_projector p h = record h { scan_projector = some p; lost = discard h.scan_projector h.lost }

abbrev pub keep_filter : Process → Host → Host
keep_filter p h = record h { scan_filter = some p; lost = discard h.scan_filter h.lost }

abbrev pub keep_depth_cloud : Process → Host → Host
keep_depth_cloud p h = record h { depth_cloud = some p; lost = discard h.depth_cloud h.lost }

abbrev pub keep_monitor : Process → Host → Host
keep_monitor p h = record h {
  collision_monitor = some p;
  lost = discard h.collision_monitor h.lost;
}

abbrev pub keep_guard : Process → Host → Host
keep_guard p h = record h { velocity_guard = some p; lost = discard h.velocity_guard h.lost }

abbrev pub keep_nav2 : Process → Host → Host
keep_nav2 p h = record h { nav2 = some p; lost = discard h.nav2 h.lost }
