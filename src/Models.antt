-- ===== src/Models.antt =====
-- packages/models/src: the registry of language models, and the router that picks one.
pub mod Registry
pub mod Router
