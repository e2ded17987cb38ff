-- ===== src/Audit.antt =====
-- Audit evidence (platform/audit): the policy of allowed fields, the recorder and the reader.
pub mod Policy
pub mod Secrets
pub mod Evidence
pub mod Recorder
pub mod Sealed
pub mod Reader
pub mod Reads
