-- ===== src/Pipeline.antt =====
-- internal/pipeline: normalizing and redacting a fetched configuration, and comparing two of them.
pub mod Diff
pub mod Risk
pub mod Redaction
