-- ===== src/Common.antt =====
-- packages/common/src: glob patterns, time windows and caps, and the retry delay.
pub mod Glob
pub mod Range
pub mod Backoff
pub mod Tests
