-- ===== src/Resilience.antt =====
-- packages/resilience/src: circuit breakers.
pub mod Breaker
pub mod DeadLetters
pub mod Service
