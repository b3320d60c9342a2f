-- ===== src/Provider.antt =====
-- internal/provider: the request to a model's provider and the reading of its answer.
pub mod Chat
pub mod Stream
pub mod Redact
pub mod Arguments
pub mod Request
pub mod Completions
pub mod Bounds
pub mod Secrets
