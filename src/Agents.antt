-- ===== src/Agents.antt =====
-- packages/agent-runtime/src: the task queue, the scheduler that takes its tasks, and the service.
pub mod TaskQueue
pub mod Scheduler
pub mod Runtime
