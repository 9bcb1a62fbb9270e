-- ===== src/Bridge/Change.antt =====
-- `_adjust_speed_impl` and `_set_speed_limit_impl` as a whole: what a rejected and an accepted mutation
-- leave.
use service_navigation_rbnx.Base.{String, Bool, true, false, ◌≡◌, some, arith, if◌then◌else◌}
use service_navigation_rbnx.Float.{Float}
use service_navigation_rbnx.Bridge.State.{Bridge, session, goal}
use service_navigation_rbnx.Bridge.Limit.{
  Publish, Request, publish_speed_limit, commit, apply_speed_decision, change_speed,
  speed_mutation_failure,
}

module _ {R H : Type 0} ⦃fl : Float R⦄ where
  -- A mutation that is rejected, whatever the reason, a failed publish included, leaves the limit in
  -- force, its scope and its owner, the session's limit, and every run as they were; it may only have
  -- sent the new percentage to one of the two channels.
  pub change_speed_rejected :
      (channels : Bool) (outcome : Publish) (request : Request R) (run : String) (persist : Bool)
      (b : Bridge R H)
      → (change_speed channels outcome request run persist b).1.accepted ≡ false
      → let b' = (change_speed channels outcome request run persist b).0 in
        b' ≡ record b {
          speed = record (b.speed) {
            nav2_limit = b'.speed.nav2_limit;
            guard_limit = b.speed.guard_limit;
          };
        }
  unfolding change_speed apply_speed_decision publish_speed_limit
  change_speed_rejected channels outcome request run persist b h = ground arith

  -- A mutation that is accepted puts the percentage that it reports in force and has sent it on both
  -- channels; a persistent one makes it the session's, and another one gives it to the reported run and
  -- leaves the session's alone.
  pub change_speed_accepted :
      (channels : Bool) (outcome : Publish) (request : Request R) (run : String) (persist : Bool)
      (b : Bridge R H)
      → (change_speed channels outcome request run persist b).1.accepted ≡ true
      → let (b', response) = change_speed channels outcome request run persist b in
        (b'.speed.percentage ≡ response.effective_percentage)
        × (b'.speed.nav2_limit ≡ some response.effective_percentage)
        × (b'.speed.guard_limit ≡ some response.effective_percentage)
        × (b'.speed.scope_run_id ≡ response.run_id)
        × (b'.speed.scope ≡ (if persist then session else goal))
        × (b'.speed.session_percentage
            ≡ (if persist then response.effective_percentage else b.speed.session_percentage))
        × (b'.goal_states ≡ b.goal_states)
  unfolding change_speed apply_speed_decision publish_speed_limit commit speed_mutation_failure
  change_speed_accepted channels outcome request run persist b h = ground arith
