-- ===== src/Lifecycle.antt =====
-- nav2_wrapper/atlas_bridge.py: what the wrapper finds through Atlas, the processes that it starts and
-- stops, and its start-up.
pub mod Process
pub mod Discovery
pub mod Soma
pub mod Files
pub mod Profile
pub mod Scan
pub mod Spawn
pub mod Init
pub mod Stopped
pub mod Clean
pub mod Reached
pub mod Started
pub mod Complete
pub mod Held
pub mod Costmap
pub mod Remaps
pub mod Wait
pub mod Commands
pub mod Clearance
mod Tests
