-- ===== src/Speed.antt =====
-- nav2_wrapper/speed_control.py: the policy for runtime navigation speed-limit commands.
pub mod Settings
pub mod Decide
pub mod Bounds
pub mod Range
mod Tests
