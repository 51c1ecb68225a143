-- ===== src/Workflow.antt =====
-- packages/workflow-engine/src: step graphs, their validation and their execution.
pub mod Types
pub mod Transitions
pub mod Environment
pub mod Execution
pub mod Rounds
pub mod Driver
pub mod Validator
pub mod Registry
pub mod Store
pub mod Executor
pub mod Service
pub mod Samples
pub mod Tests
