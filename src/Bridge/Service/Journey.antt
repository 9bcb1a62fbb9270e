-- ===== src/Bridge/Service/Journey.antt =====
-- A run that is asked for and then canceled by calls on nav2_wrapper/atlas_bridge.py.
use service_navigation_rbnx.Base.{
  String, true, false, ◌≡◌, ◌≢◌, ◌⊎◌, inl, inr, refl, ◌∙◌, none, some, arith, eq_iff, eq_refl,
}
use service_navigation_rbnx.Float.{Float}
use service_navigation_rbnx.Dict.{lookup, lookup-insert}
use service_navigation_rbnx.Bridge.State.{pending, canceled, GoalState, Bridge, resolve_run_id}
use service_navigation_rbnx.Bridge.Runs.{
  Goal, raised, returned, restore, put_state, entry, early_text, navigate, enqueue, payload_of,
  status, cancel, claim,
}
use service_navigation_rbnx.Bridge.Service.{
  Surround, navigates, asks_status, cancels, Response, navigated, status_is, finish_cancel,
  cancel_impl, navigate_impl, or_raises, tool,
}
use service_navigation_rbnx.Bridge.Service

-- The entry that an early cancel leaves.
abbrev canceled_entry : {R : Type 0} → GoalState R
canceled_entry = record {
  state = canceled;
  detail = early_text;
  cancel_requested = true;
  feedback = none;
}

module _ {R H : Type 0} where
  status_at :
      (id gid : String) (e : GoalState R) (b : Bridge R H)
      → resolve_run_id id b ≡ gid
      → lookup gid b.goal_states ≡ some e
      → status id b ≡ record { known = true; state = e.state; detail = e.detail }
  unfolding status
  status_at id gid e b at found = ground arith

  canceled_again :
      (s : Surround) (id gid : String) (b : Bridge R H)
      → resolve_run_id id b ≡ gid
      → lookup gid b.goal_states ≡ some canceled_entry
      → cancel_impl s id b ≡ (b, record { accepted = false; detail = "run is already canceled" })
  unfolding cancel_impl finish_cancel cancel
  canceled_again s id gid b at found = rw (at, cancel, found) refl

  cancel_queued :
      (gid : String) (b : Bridge R H)
      → lookup gid b.goal_states ≡ some (entry pending "queued")
      → lookup gid b.goal_handles ≡ none
      → cancel gid b ≡ (put_state gid canceled_entry b, restore early_text)
  unfolding cancel
  cancel_queued gid b found none_yet = ground arith

  canceled_early :
      (s : Surround) (id gid : String) (b : Bridge R H)
      → resolve_run_id id b ≡ gid
      → lookup gid b.goal_states ≡ some (entry pending "queued")
      → lookup gid b.goal_handles ≡ none
      → let (b', out) = cancel_impl s id b in
        (out ≡ record { accepted = true; detail = early_text })
        × (lookup gid b'.goal_states ≡ some canceled_entry)
        × (b'.last_run_id ≡ b.last_run_id)
  unfolding cancel_impl finish_cancel
  canceled_early s id gid b at found none_yet =
      rw (at, cancel_queued gid b found none_yet)
        (
          refl,
          ground (arith, lookup-insert gid gid (canceled_entry {R = R}) b.goal_states, eq_refl gid),
          refl,
        )

  resolves :
      (id gid : String) (b : Bridge R H)
      → (id ≡ gid) ⊎ (id ≡ "")
      → gid ≢ ""
      → b.last_run_id ≡ gid
      → resolve_run_id id b ≡ gid
  unfolding resolve_run_id
  resolves id gid b (inl same) named last = ground (arith, eq_iff id "")
  resolves id gid b (inr empty) named last = ground (arith, eq_iff id "")

  canceled-drops :
      (gid : String) (b : Bridge R H)
      → lookup gid b.goal_states ≡ some canceled_entry
      → claim gid b ≡ (b, false)
  unfolding claim
  canceled-drops gid b found = ground arith

module _ {R H : Type 0} ⦃fl : Float R⦄ where
  -- The bridge after an accepted request.
  abbrev queued_bridge : Surround → Goal R → Bridge R H → Bridge R H
  queued_bridge s goal b =
      enqueue s.new_run_id (payload_of goal)
        (record (put_state s.new_run_id (entry pending "queued") b) { last_run_id = s.new_run_id })

  accepted_lem :
      (s : Surround) (goal : Goal R) (b : Bridge R H)
      → b.ros_ready ≡ true
      → tool s (navigates goal) b ≡ (
        queued_bridge s goal b,
        returned (navigated (record { accepted = true; run_id = s.new_run_id; detail = "queued" })),
      )
  unfolding tool or_raises navigate_impl navigate
  accepted_lem s goal b ready = rw ready refl

  then_canceled :
      (s : Surround) (b : Bridge R H) (id gid : String)
      → (id ≡ gid) ⊎ (id ≡ "")
      → gid ≢ ""
      → b.last_run_id ≡ gid
      → lookup gid b.goal_states ≡ some (entry pending "queued")
      → lookup gid b.goal_handles ≡ none
      → let (b₂, ended) = tool s (cancels id) b in
        ((tool s (asks_status id) b).1
          ≡ returned (status_is (record { known = true; state = pending; detail = "queued" })))
        × (ended ≡ returned (Service.canceled (record { accepted = true; detail = early_text })))
        × ((tool s (asks_status id) b₂).1
            ≡ returned (status_is (record { known = true; state = canceled; detail = early_text })))
        × (tool s (cancels id) b₂ ≡ (b₂, raised "run is already canceled"))
        × (claim gid b₂ ≡ (b₂, false))
  unfolding tool or_raises
  then_canceled s b id gid names named last found none_yet =
      let at = resolves id gid b names named last in
      let b₂ : Bridge R H = (cancel_impl s id b).0 in
      let (answer, found₂, last₂) = canceled_early s id gid b at found none_yet in
      let at₂ : resolve_run_id id b₂ ≡ gid = resolves id gid b₂ names named (last₂ ∙ last) in
      let again = canceled_again s id gid b₂ at₂ found₂ in
      (
        rw (status_at id gid (entry pending "queued") b at found) refl,
        rw answer refl,
        rw (status_at id gid canceled_entry b₂ at₂ found₂) refl,
        rw again refl,
        canceled-drops gid b₂ found₂,
      )

  pub navigate_then_cancel :
      (s : Surround) (goal : Goal R) (b : Bridge R H) (id : String)
      → b.ros_ready ≡ true
      → s.new_run_id ≢ ""
      → lookup s.new_run_id b.goal_handles ≡ none
      → (id ≡ s.new_run_id) ⊎ (id ≡ "")
      → let (b₁, asked) = tool s (navigates goal) b in
        let (b₂, ended) = tool s (cancels id) b₁ in
        (asked
          ≡ returned
              (navigated (record { accepted = true; run_id = s.new_run_id; detail = "queued" })))
        × ((tool s (asks_status id) b₁).1
            ≡ returned (status_is (record { known = true; state = pending; detail = "queued" })))
        × (ended ≡ returned (Service.canceled (record { accepted = true; detail = early_text })))
        × ((tool s (asks_status id) b₂).1
            ≡ returned (status_is (record { known = true; state = canceled; detail = early_text })))
        × (tool s (cancels id) b₂ ≡ (b₂, raised "run is already canceled"))
        × (claim s.new_run_id b₂ ≡ (b₂, false))
  unfolding enqueue
  navigate_then_cancel s goal b id ready named fresh names =
      let (pending_yet, ended, told, again, dropped) =
        then_canceled s (queued_bridge s goal b) id s.new_run_id names named refl
          (ground (
            arith,
            lookup-insert s.new_run_id s.new_run_id (entry {R = R} pending "queued") b.goal_states,
            eq_refl s.new_run_id,
          ))
          fresh in
      rw (accepted_lem s goal b ready) (refl, pending_yet, ended, told, again, dropped)
