-- ===== src/Policy.antt =====
-- packages/policy-engine/src: rules and their resolution, approvals and budgets.
pub mod Types
pub mod Matcher
pub mod Engine
pub mod Approvals
pub mod Budget
pub mod Quota
pub mod Service
pub mod Tests
