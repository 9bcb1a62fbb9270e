-- ===== src/Node.antt =====
-- nav2_wrapper/velocity_guard.py: the node between Nav2's commands and the base.
pub mod Recorder
pub mod Handlers
pub mod Passing
pub mod Cancel
pub mod Agreement
pub mod Start
pub mod Handover
mod Tests
