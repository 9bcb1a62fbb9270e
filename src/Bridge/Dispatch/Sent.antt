-- ===== src/Bridge/Dispatch/Sent.antt =====
-- A run whose goal nav2_wrapper/atlas_bridge.py sends, and one that it drops.

use service_navigation_rbnx.Base.{
  String, Bool, true, false, ◌&&◌, ◌≡◌, refl, none, some, ◌=?◌, if◌then◌else◌, arith, eq_iff,
}
use service_navigation_rbnx.Dict.{Dict, lookup, insert, lookup-insert}
use service_navigation_rbnx.Bridge.State.{running, GoalState, Bridge}
use service_navigation_rbnx.Bridge.Runs.{
  is_canceled, claim, clear_diagnostics, mark_sent, put_state,
}
use service_navigation_rbnx.Bridge.Service.Failure.{state_of}

lookup-twice :
    {R : Type 0} (gid g : String) (x y : GoalState R) (d : Dict (GoalState R))
    → lookup g (insert gid x (insert gid y d)) ≡ (if gid =? g then some x else lookup g d)
lookup-twice gid g x y d =
    ground (arith, lookup-insert gid g x (insert gid y d), lookup-insert gid g y d)

module _ {R H : Type 0} where
  -- A run that is not known, or that was canceled before.
  abbrev pub drops : String → Bridge R H → Bool
  drops gid b = elim (lookup gid b.goal_states) [
    | none ↦ true
    | some s ↦ is_canceled s.state && s.cancel_requested
  ]

  pub claimed_lem :
      (gid : String) (s : GoalState R) (b : Bridge R H)
      → lookup gid b.goal_states ≡ some s
      → (is_canceled s.state && s.cancel_requested) ≡ false
      → claim gid b
        ≡ (put_state gid (record s { state = running; detail = "dispatching goal" }) b, true)
  unfolding claim
  claimed_lem gid s b found wanted = ground arith

  pub dropped_lem : (gid : String) (b : Bridge R H) → drops gid b ≡ true → claim gid b ≡ (b, false)
  unfolding claim
  dropped_lem gid b h = ground arith

  -- The bridge once a claimed run's goal is sent.
  unfoldable pub sent_bridge : String → GoalState R → Bridge R H → Bridge R H
  sent_bridge gid s b = mark_sent gid (
      clear_diagnostics
        (put_state gid (record s { state = running; detail = "dispatching goal" }) b))

  sent-lookup :
      (gid : String) (s : GoalState R) (b : Bridge R H)
      → (e : GoalState R) × (e.state ≡ running)
        × ((g : String)
            → lookup g (sent_bridge gid s b).goal_states
              ≡ (if gid =? g then some e else lookup g b.goal_states))
  unfolding sent_bridge mark_sent clear_diagnostics
  sent-lookup gid s b = (_, refl, λ g. lookup-twice gid g _ _ b.goal_states)

  pub sent-states :
      (gid g : String) (s : GoalState R) (b : Bridge R H)
      → state_of g (sent_bridge gid s b) ≡ (if gid =? g then some running else state_of g b)
  sent-states gid g s b = let (e, is_running, at) = sent-lookup gid s b in ground (arith, at g)

  pub sent-drops :
      (gid g : String) (s : GoalState R) (b : Bridge R H)
      → drops gid b ≡ false
      → drops g (sent_bridge gid s b) ≡ drops g b
  sent-drops gid g s b wanted =
      let (e, is_running, at) = sent-lookup gid s b in ground (arith, at g, eq_iff gid g)
