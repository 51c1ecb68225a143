-- ===== src/Missions.antt =====
-- packages/mission-engine/src: missions, which sit above workflow runs.
pub mod Types
pub mod Store
pub mod Planner
pub mod State
pub mod Service
