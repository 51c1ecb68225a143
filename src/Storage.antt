-- ===== src/Storage.antt =====
-- packages/storage/src: the in-memory key/value store.
pub mod KeyValue
