-- ===== src/Node/Cancel.antt =====
-- Sequences of callbacks of the velocity guard node: the cancel requests that it sends for a goal, and
-- the commands that it publishes once the guard has tripped.
use mathlib.Core.List.{◌++◌}
use service_navigation_rbnx.Base.{
  String, Bool, true, ◌≡◌, ◌⊎◌, refl, Option, none, some, is_some, List, [], ◌∷◌, arith, length,
  leb, All, eq_iff, Option-cases, inl, inr,
}
use service_navigation_rbnx.Int.{ℤ}
use service_navigation_rbnx.Float.{Float}
use service_navigation_rbnx.Guard.Core.{Reason, evaluate, observe_odom, turn_by}
use service_navigation_rbnx.Bridge.State.{Nav2Status}
use service_navigation_rbnx.Node.Handlers.{
  Node, Twist, Quaternion, Uuid, zero_twist, uuid_text, last_live, on_speed_limit, on_status,
  on_feedback, on_plan, on_odom, on_cmd, publish_latched_zero, trip, begin,
}

-- What the executor delivers to the node.
pub data Event (R : Type 0) : Type 0 where
  limits : R → Bool → Event R
  statuses : List (Uuid × Nav2Status) → Event R
  feeds : Uuid → R → R → Quaternion R → Event R
  plans : Option (R × R × Quaternion R) → Event R
  odometry : Quaternion R → Event R
  commands : R → Bool → Twist R → Event R
  timer : Event R

module _ {R : Type 0} where
  -- The event does not start another goal than `uuid`.
  abbrev pub Stays : String → Event R → Type 0
  Stays uuid (statuses items) = (raw : Uuid) → last_live items ≡ some raw → uuid_text raw ≡ uuid
  Stays uuid (feeds raw x y q) = (uuid_text raw ≡ "") ⊎ (uuid_text raw ≡ uuid)
  Stays uuid _ = Unit

  -- Nor does it report that no goal is live.
  abbrev pub Live : Event R → Type 0
  Live (statuses items) = is_some (last_live items) ≡ true
  Live _ = Unit

All-append : {A : Type 0} (P : A → Type 0) (xs ys : List A) → All P xs → All P ys → All P (xs ++ ys)
All-append P [] ys a b = b
All-append P (x ∷ xs) ys (p, a) b = (p, All-append P xs ys a b)

module _ {R : Type 0} ⦃fl : Float R⦄ where
  -- The node after an event, the cancel request that it has sent and the commands that it has published.
  unfoldable pub handle : Event R → Node R → Node R × Option (List ℤ) × List (Twist R)
  handle (limits value percentage) n = (on_speed_limit value percentage n, none, [])
  handle (statuses items) n = (on_status items n, none, [])
  handle (feeds raw x y q) n = (on_feedback raw x y q n, none, [])
  handle (plans pose) n = (on_plan pose n, none, [])
  handle (odometry q) n = (on_odom q n, none, [])
  handle (commands now ready msg) n =
      let r = on_cmd now ready msg n in (r.node, r.canceled, r.published ∷ [])
  handle timer n = (n, none, elim (publish_latched_zero n) [ none ↦ [] | some t ↦ t ∷ [] ])

  unfoldable pub cancels : List (Event R) → Node R → List (List ℤ)
  cancels [] n = []
  cancels (e ∷ es) n =
      let rest = cancels es (handle e n).0 in
      elim (handle e n).1 [ none ↦ rest | some raw ↦ raw ∷ rest ]

  unfoldable pub published : List (Event R) → Node R → List (Twist R)
  published [] n = []
  published (e ∷ es) n = (handle e n).2 ++ published es (handle e n).0

  begin_stays :
      (uuid : String) (raw : Uuid) (n : Node R) → uuid ≡ n.active_uuid → (begin uuid raw n).0 ≡ n
  unfolding begin
  begin_stays uuid raw n h = ground (arith, eq_iff uuid n.active_uuid)

  handle_active :
      (e : Event R) (n : Node R)
      → Stays n.active_uuid e
      → (handle e n).0.active_uuid ≡ n.active_uuid
  unfolding handle on_speed_limit on_status on_feedback on_plan on_odom on_cmd trip
  handle_active (limits value p) n h = ground arith
  handle_active (statuses items) n h = elim (Option-cases (last_live items)) [
    | inl idle ↦ ground arith
    | inr (raw, live) ↦ ground (arith, begin_stays (uuid_text raw) raw n (h raw live))
  ]
  handle_active (feeds raw x y q) n h =
      ground (arith, eq_iff (uuid_text raw) n.active_uuid, eq_iff (uuid_text raw) "")
  handle_active (plans none) n h = refl
  handle_active (plans (some p)) n h = refl
  handle_active (odometry q) n h = refl
  handle_active (commands now ready msg) n h = ground arith
  handle_active timer n h = refl

  handle_sent :
      (e : Event R) (n : Node R)
      → Stays n.active_uuid e
      → n.cancel_sent ≡ true
      → ((handle e n).0.cancel_sent ≡ true) × ((handle e n).1 ≡ none)
  unfolding handle on_speed_limit on_status on_feedback on_plan on_odom on_cmd trip
  handle_sent (limits value p) n h s = ground arith
  handle_sent (statuses items) n h s = elim (Option-cases (last_live items)) [
    | inl idle ↦ ground arith
    | inr (raw, live) ↦ ground (arith, begin_stays (uuid_text raw) raw n (h raw live))
  ]
  handle_sent (feeds raw x y q) n h s =
      ground (arith, eq_iff (uuid_text raw) n.active_uuid, eq_iff (uuid_text raw) "")
  handle_sent (plans none) n h s = (s, refl)
  handle_sent (plans (some p)) n h s = (s, refl)
  handle_sent (odometry q) n h s = (s, refl)
  handle_sent (commands now ready msg) n h s = ground arith
  handle_sent timer n h s = (s, refl)

  handle_requests :
      (e : Event R) (n : Node R) → ((handle e n).1 ≡ none) ⊎ ((handle e n).0.cancel_sent ≡ true)
  unfolding handle on_cmd trip
  handle_requests (limits value p) n = inl refl
  handle_requests (statuses items) n = inl refl
  handle_requests (feeds raw x y q) n = inl refl
  handle_requests (plans pose) n = inl refl
  handle_requests (odometry q) n = inl refl
  handle_requests (commands now ready msg) n = ground arith
  handle_requests timer n = inl refl

  -- Once the guard's trip has been handled, no further cancel is requested for the same goal, in any
  -- sequence of events that starts no other goal: not even if the cancel service was not ready, so that
  -- the first request was never sent.
  cancel_sent_is_final :
      (es : List (Event R)) (n : Node R)
      → n.cancel_sent ≡ true
      → All (Stays n.active_uuid) es
      → cancels es n ≡ []
  unfolding cancels
  cancel_sent_is_final [] n s a = refl
  cancel_sent_is_final (e ∷ es) n s a =
      let (sent, no_request) = handle_sent e n a.0 s in
      rw (no_request, cancels)
        (cancel_sent_is_final es (handle e n).0 sent (rw (handle_active e n a.0) a.1))

  -- At most one cancel is requested for a goal, in any sequence of events that starts no other goal.
  pub one_cancel :
      (es : List (Event R)) (n : Node R)
      → All (Stays n.active_uuid) es
      → leb (length (cancels es n)) 1 ≡ true
  unfolding cancels
  one_cancel [] n a = refl
  one_cancel (e ∷ es) n a =
      let active = handle_active e n a.0 in
      elim (handle_requests e n) [
        | inl no_request ↦ rw (no_request, cancels) (one_cancel es (handle e n).0 (rw active a.1))
        | inr sent ↦
            let rest : cancels es (handle e n).0 ≡ [] =
              cancel_sent_is_final es (handle e n).0 sent (rw active a.1) in
            ground arith
      ]

  command_latched :
      (now : R) (ready : Bool) (msg : Twist R) (n : Node R) (r : Reason)
      → n.guard.latched_reason ≡ some r
      → ((on_cmd now ready msg n).node.guard.latched_reason ≡ some r)
        × ((on_cmd now ready msg n).published ≡ zero_twist)
  unfolding on_cmd trip evaluate
  command_latched now ready msg n r g = ground arith

  handle_latched :
      (e : Event R) (n : Node R) (r : Reason)
      → Stays n.active_uuid e
      → Live e
      → n.guard.latched_reason ≡ some r
      → ((handle e n).0.guard.latched_reason ≡ some r) × All (λ t. t ≡ zero_twist) (handle e n).2
  unfolding handle on_speed_limit on_status on_feedback on_plan on_odom on_cmd trip evaluate
      observe_odom turn_by publish_latched_zero
  handle_latched (limits value p) n r h l g = ground arith
  handle_latched (statuses items) n r h l g = elim (Option-cases (last_live items)) [
    | inl idle ↦ ground arith
    | inr (raw, live) ↦ ground (arith, begin_stays (uuid_text raw) raw n (h raw live))
  ]
  handle_latched (feeds raw x y q) n r h l g =
      ground (arith, eq_iff (uuid_text raw) n.active_uuid, eq_iff (uuid_text raw) "")
  handle_latched (plans none) n r h l g = (g, tt)
  handle_latched (plans (some p)) n r h l g = (g, tt)
  handle_latched (odometry q) n r h l g = ground arith
  handle_latched (commands now ready msg) n r h l g =
      let (kept, zero) = command_latched now ready msg n r g in (kept, (zero, tt))
  handle_latched timer n r h l g = (g, rw g (refl, tt))

  -- Once the guard has latched, every command that the node publishes, in reply to a command or on its
  -- timer, is a zero command, in any sequence of events for the same goal in which the goal stays live.
  pub latched_publishes_zero :
      (es : List (Event R)) (n : Node R) (r : Reason)
      → n.guard.latched_reason ≡ some r
      → All (Stays n.active_uuid) es
      → All Live es
      → All (λ t. t ≡ zero_twist) (published es n)
  unfolding published
  latched_publishes_zero [] n r g a l = tt
  latched_publishes_zero (e ∷ es) n r g a l =
      let (kept, zeros) = handle_latched e n r a.0 l.0 g in
      All-append (λ t. t ≡ zero_twist) (handle e n).2 (published es (handle e n).0) zeros
        (latched_publishes_zero es (handle e n).0 r kept (rw (handle_active e n a.0) a.1) l.1)
