-- ===== src/Bridge.antt =====
-- nav2_wrapper/atlas_bridge.py: the navigation runs and the speed limits that the bridge serves.
pub mod State
pub mod Runs
pub mod Limit
pub mod World
pub mod Frame
pub mod Cover
pub mod Scope
pub mod Tracked
pub mod Effects
pub mod Final
pub mod Ended
pub mod Terminal
pub mod Interleaving
pub mod Life
pub mod Waiting
pub mod Progress
pub mod Canceling
pub mod Change
pub mod Service
pub mod Dispatch
pub mod Pump
pub mod Ranged
mod Tests
