-- ===== src/Audit.antt =====
-- packages/audit/src: the hash-chained audit ledger.
pub mod Types
pub mod Store
pub mod Ledger
pub mod Tests
