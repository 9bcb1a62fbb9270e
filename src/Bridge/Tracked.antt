-- ===== src/Bridge/Tracked.antt =====
-- How far a run's code has come decides what its entry in `_goal_states` can be; and the queue holds
-- each waiting run once.
use mathlib.Core.List.{◌++◌ as append}
use service_navigation_rbnx.Base.{
  String, true, false, ◌≡◌, ◌≢◌, ◌⊎◌, inl, inr, Option, none, some, List, [], ◌∷◌, arith, eq_iff,
  Bool-cases, ◌=?◌, sym, subst, All, if◌then◌else◌,
}
use service_navigation_rbnx.Dict.{Dict, lookup, insert, lookup-insert}
use service_navigation_rbnx.Bridge.State.{
  pending, running, canceled, GoalState, Payload, is_terminal,
}
use service_navigation_rbnx.Bridge.World.{
  Stage, submitting, queued, claimed, sent, awaiting, executing, dropped, done,
}

-- The queue, the stages and the runs' entries.
abbrev pub Queue : Type 0 → Type 0
Queue R = List (String × Payload R)

module _ {R : Type 0} where
  -- A run that waits is pending, or was canceled and says so.
  abbrev pub Waits : GoalState R → Type 0
  Waits s = (s.state ≡ pending) ⊎ ((s.state ≡ canceled) × (s.cancel_requested ≡ true))

  abbrev pub FitsStage : Stage → GoalState R → Type 0
  FitsStage submitting s = Waits s
  FitsStage queued s = Waits s
  FitsStage claimed s = s.state ≡ running
  FitsStage sent s = s.state ≡ running
  FitsStage awaiting s = s.state ≡ running
  FitsStage executing s = s.state ≡ running
  FitsStage dropped s = is_terminal s.state ≡ true
  FitsStage done s = Unit

  abbrev pub Fits : Option Stage → Option (GoalState R) → Type 0
  Fits none none = Unit
  Fits none (some s) = ⊥
  Fits (some st) none = ⊥
  Fits (some st) (some s) = FitsStage st s

  abbrev pub AllFit : Dict Stage → Dict (GoalState R) → Type 0
  AllFit stages states = (run : String) → Fits (lookup run stages) (lookup run states)

  abbrev pub Queued : Dict Stage → Queue R → Type 0
  Queued stages = All (λ e. lookup (e.0) stages ≡ some queued)

  abbrev pub Absent : String → Queue R → Type 0
  Absent run = All (λ e. e.0 ≢ run)

  abbrev pub Distinct : Queue R → Type 0
  Distinct [] = Unit
  Distinct (e ∷ es) = Absent e.0 es × Distinct es

  -- The run's entry and stage both change, and no other run's.
  pub AllFit-insert :
      (gid : String) (stage : Stage) (entry : GoalState R) (stages : Dict Stage)
      (states : Dict (GoalState R))
      → FitsStage stage entry
      → AllFit stages states
      → AllFit (insert gid stage stages) (insert gid entry states)
  AllFit-insert gid stage entry stages states h fits run =
      rw (lookup-insert gid run stage stages, lookup-insert gid run entry states)
        (elim (gid =? run)
          as (λ b.
            Fits (if b then some stage else lookup run stages)
              (if b then some entry else lookup run states)) [ true ↦ h | false ↦ fits run ])

  -- Only the stage changes.
  pub AllFit-stage :
      (gid : String) (stage : Stage) (stages : Dict Stage) (states : Dict (GoalState R))
      → Fits (some stage) (lookup gid states)
      → AllFit stages states
      → AllFit (insert gid stage stages) states
  AllFit-stage gid stage stages states h fits run = elim (Bool-cases (gid =? run)) [
    | inl same ↦
        rw (lookup-insert gid run stage stages, same)
          (subst (λ g. Fits (some stage) (lookup g states)) ((eq_iff gid run).0 same) h)
    | inr differs ↦ rw (lookup-insert gid run stage stages, differs) (fits run)
  ]

  -- Only the entry changes.
  pub AllFit-entry :
      (gid : String) (entry : GoalState R) (stages : Dict Stage) (states : Dict (GoalState R))
      → Fits (lookup gid stages) (some entry)
      → AllFit stages states
      → AllFit stages (insert gid entry states)
  AllFit-entry gid entry stages states h fits run = elim (Bool-cases (gid =? run)) [
    | inl same ↦
        rw (lookup-insert gid run entry states, same)
          (subst (λ g. Fits (lookup g stages) (some entry)) ((eq_iff gid run).0 same) h)
    | inr differs ↦ rw (lookup-insert gid run entry states, differs) (fits run)
  ]

  pub Queued-insert :
      (gid : String) (stage : Stage) (stages : Dict Stage) (q : Queue R)
      → Absent gid q
      → Queued stages q
      → Queued (insert gid stage stages) q
  Queued-insert gid stage stages [] a h = tt
  Queued-insert gid stage stages (e ∷ es) a h = (
    ground (arith, lookup-insert gid e.0 stage stages, eq_iff gid e.0),
    Queued-insert gid stage stages es a.1 h.1,
  )

  -- A run that is not at the stage `queued` is not in the queue.
  pub Absent-of_stage :
      (gid : String) (stages : Dict Stage) (q : Queue R)
      → lookup gid stages ≢ some queued
      → Queued stages q
      → Absent gid q
  Absent-of_stage gid stages [] ne h = tt
  Absent-of_stage gid stages (e ∷ es) ne h = (
    λ same. ne (subst (λ g. lookup g stages ≡ some queued) same h.0),
    Absent-of_stage gid stages es ne h.1,
  )

  pub Queued-append :
      (gid : String) (payload : Payload R) (stages : Dict Stage) (q : Queue R)
      → lookup gid stages ≡ some queued
      → Queued stages q
      → Queued stages (append q ((gid, payload) ∷ []))
  Queued-append gid payload stages [] e h = (e, tt)
  Queued-append gid payload stages (x ∷ xs) e h = (h.0, Queued-append gid payload stages xs e h.1)

  Absent-append :
      (run gid : String) (payload : Payload R) (q : Queue R)
      → gid ≢ run
      → Absent run q
      → Absent run (append q ((gid, payload) ∷ []))
  Absent-append run gid payload [] ne h = (ne, tt)
  Absent-append run gid payload (x ∷ xs) ne h = (h.0, Absent-append run gid payload xs ne h.1)

  pub Distinct-append :
      (gid : String) (payload : Payload R) (q : Queue R)
      → Absent gid q
      → Distinct q
      → Distinct (append q ((gid, payload) ∷ []))
  Distinct-append gid payload [] a d = (tt, tt)
  Distinct-append gid payload (x ∷ xs) a d = (
    Absent-append x.0 gid payload xs (λ e. a.0 (sym e)) d.0,
    Distinct-append gid payload xs a.1 d.1,
  )
