-- ===== src/Guard.antt =====
-- nav2_wrapper/rotation_guard_core.py: the state machine that latches a navigation goal after unsafe
-- stationary rotation. `None` is `none`, and the empty latch reason is `none` too.
pub mod Core
pub mod Trace
pub mod Frame
pub mod Latch
pub mod Limits
pub mod Invariant
pub mod Odometry
mod Tests
