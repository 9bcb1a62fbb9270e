-- ===== src/Bridge/Ended.antt =====
-- The stages, the entries and the queue in step, and how one run's code may move on.

use service_navigation_rbnx.Base.{String, false, ◌≡◌, ◌≢◌, some, ◌∷◌, arith, ◌∙◌, sym, subst, ◌&&◌}
use service_navigation_rbnx.Dict.{Dict, lookup, insert}
use service_navigation_rbnx.Bridge.State.{GoalState, Payload, is_terminal}
use service_navigation_rbnx.Bridge.Runs.{is_canceled}
use service_navigation_rbnx.Bridge.World.{Stage, queued}
use service_navigation_rbnx.Bridge.Tracked.{
  Queue, Fits, FitsStage, Waits, AllFit, Queued, Distinct, AllFit-insert, AllFit-stage,
  AllFit-entry, Queued-insert, Absent-of_stage,
}
use service_navigation_rbnx.Bridge.Effects.{Fits-stage}

-- The three records agree.
pub record Tracked {R : Type 0} (stages : Dict Stage) (states : Dict (GoalState R)) (q : Queue R)
    : Type 0 where
  pub fits : AllFit stages states
  pub waiting : Queued stages q
  pub distinct : Distinct q

module _ {R : Type 0} where
  -- The code of run `gid`, which is not in the queue, moves on and writes the run's entry.
  pub Tracked-advance :
      (gid : String) (st st' : Stage) (e : GoalState R) (stages : Dict Stage)
      (states : Dict (GoalState R)) (q : Queue R)
      → Tracked stages states q
      → lookup gid stages ≡ some st
      → some st ≢ some queued
      → FitsStage st' e
      → Tracked (insert gid st' stages) (insert gid e states) q
  Tracked-advance gid st st' e stages states q t at ne fit = record {
    fits = AllFit-insert gid st' e stages states fit t.fits;
    waiting =
        Queued-insert gid st' stages q
          (Absent-of_stage gid stages q (λ is. ne (sym at ∙ is)) t.waiting) t.waiting;
    distinct = t.distinct;
  }

  -- The code moves on without a write.
  pub Tracked-stage :
      (gid : String) (st st' : Stage) (stages : Dict Stage) (states : Dict (GoalState R))
      (q : Queue R)
      → Tracked stages states q
      → lookup gid stages ≡ some st
      → some st ≢ some queued
      → ((s : GoalState R) → FitsStage st s → FitsStage st' s)
      → Tracked (insert gid st' stages) states q
  Tracked-stage gid st st' stages states q t at ne f = record {
    fits =
        AllFit-stage gid st' stages states
          (Fits-stage st st' (lookup gid states) f
            (subst (λ o. Fits o (lookup gid states)) at (t.fits gid)))
          t.fits;
    waiting =
        Queued-insert gid st' stages q
          (Absent-of_stage gid stages q (λ is. ne (sym at ∙ is)) t.waiting) t.waiting;
    distinct = t.distinct;
  }

  -- A write without a move of the code.
  pub Tracked-entry :
      (gid : String) (s e : GoalState R) (stages : Dict Stage) (states : Dict (GoalState R))
      (q : Queue R)
      → Tracked stages states q
      → lookup gid states ≡ some s
      → (Fits (lookup gid stages) (some s) → Fits (lookup gid stages) (some e))
      → Tracked stages (insert gid e states) q
  Tracked-entry gid s e stages states q t found f = record {
    fits =
        AllFit-entry gid e stages states (f (subst (Fits (lookup gid stages)) found (t.fits gid)))
          t.fits;
    waiting = t.waiting;
    distinct = t.distinct;
  }

  -- The head of the queue is taken.
  pub Tracked-take :
      (gid : String) (payload : Payload R) (rest : Queue R) (st : Stage) (stages : Dict Stage)
      (states states' : Dict (GoalState R)) (q : Queue R)
      → Tracked stages states q
      → q ≡ (gid, payload) ∷ rest
      → AllFit (insert gid st stages) states'
      → Tracked (insert gid st stages) states' rest
  Tracked-take gid payload rest st stages states states' q t head fits =
      let waiting : Queued stages ((gid, payload) ∷ rest) = subst (Queued stages) head t.waiting in
      let distinct : Distinct ((gid, payload) ∷ rest) = subst Distinct head t.distinct in
      record {
        fits = fits;
        waiting = Queued-insert gid st stages rest distinct.0 waiting.1;
        distinct = distinct.1;
      }

  -- The head of the queue waits, and has an entry that fits.
  pub head_waits :
      (gid : String) (payload : Payload R) (rest : Queue R) (stages : Dict Stage)
      (states : Dict (GoalState R)) (q : Queue R)
      → Tracked stages states q
      → q ≡ (gid, payload) ∷ rest
      → Fits (some queued) (lookup gid states)
  head_waits gid payload rest stages states q t head =
      let waiting : Queued stages ((gid, payload) ∷ rest) = subst (Queued stages) head t.waiting in
      subst (λ o. Fits o (lookup gid states)) waiting.0 (t.fits gid)

  pub waiting_live :
      (s : GoalState R)
      → Waits s
      → (is_canceled s.state && s.cancel_requested) ≡ false
      → is_terminal s.state ≡ false
  waiting_live s w h = ground arith
