-- ===== src/Lifecycle/Profile.antt =====
-- `_send_full_costmap` and `_pin_collision_monitor` of nav2_wrapper/atlas_bridge.py, on the document that a
-- parameter file holds.
use service_navigation_rbnx.Base.{
  String, Bool, true, false, Option, none, some, ◌=?◌, if◌then◌else◌,
}
use service_navigation_rbnx.Float.{Float}
use service_navigation_rbnx.Value.{Value, Fields, end, field, get}
use service_navigation_rbnx.Bridge.Runs.{Outcome, raised, returned}
use service_navigation_rbnx.Lifecycle.Discovery.{◌>>=◌, section}

module _ {R : Type 0} where
  -- `params[key] = value`
  unfoldable pub put : Fields R → String → Value R → Fields R
  put end k v = field k v end
  put (field j w d) k v = if j =? k then field k v d else field j w (put d k v)

  -- What `params.setdefault(key, {})` gives where a mapping is needed.
  unfoldable pub child : Fields R → String → Outcome (Fields R)
  child d k = elim (get d k) [
    | none ↦ returned end
    | some v ↦ elim v [ Value.mapping c ↦ returned c | _ ↦ raised "not a mapping" ]
  ]

  -- `ros.get("always_send_full_costmap") is True`
  unfoldable pub is_true : Option (Value R) → Bool
  is_true (some (Value.boolean b)) = b
  is_true _ = false

  -- The parameters with the switch on, on the mappings that lead to it.
  unfoldable pub switch_on : Fields R → Fields R → Fields R → Fields R → Fields R
  unfolding put
  switch_on params outer inner ros =
      let ros' = put ros "always_send_full_costmap" (Value.boolean true) in
      let inner' = put inner "ros__parameters" (Value.mapping ros') in
      let outer' = put outer "global_costmap" (Value.mapping inner') in
      put params "global_costmap" (Value.mapping outer')

module _ {R : Type 0} ⦃fl : Float R⦄ where
  -- The document with the switch on, unless it is.
  unfoldable pub switched : Value R → Fields R → Fields R → Fields R → Fields R → Value R
  unfolding is_true switch_on
  switched document params outer inner ros =
      if is_true (get ros "always_send_full_costmap")
      then document
      else Value.mapping (switch_on params outer inner ros)

  -- `_send_full_costmap`: the document that Nav2 is started with.
  unfoldable pub send_full_costmap : Value R → Outcome (Value R)
  unfolding section child switched
  send_full_costmap document = do
    params ← section (some document)
    outer ← child params "global_costmap"
    inner ← child outer "global_costmap"
    ros ← child inner "ros__parameters"
    returned (switched document params outer inner ros)

  -- The monitor's section with its topics fixed.
  unfoldable pub pinned : Fields R → Fields R → Fields R
  unfolding put
  pinned monitor ros =
      let input = put ros "cmd_vel_in_topic" (Value.text "cmd_vel_collision_input") in
      let both = put input "cmd_vel_out_topic" (Value.text "cmd_vel_guard_input") in
      put end "collision_monitor"
        (Value.mapping (put monitor "ros__parameters" (Value.mapping both)))

  -- What `_pin_collision_monitor` makes of the value of "collision_monitor".
  unfoldable pub pin_section : Option (Value R) → Outcome (Option (Fields R))
  unfolding child pinned
  pin_section (some (Value.mapping monitor)) = do
    ros ← child monitor "ros__parameters"
    returned (some (pinned monitor ros))
  pin_section _ = returned none

  -- `_pin_collision_monitor`: the document that the monitor is started with, if it is to be.
  unfoldable pub pin_collision_monitor : Value R → Outcome (Option (Fields R))
  unfolding section pin_section
  pin_collision_monitor document = do
    params ← section (some document)
    pin_section (get params "collision_monitor")
