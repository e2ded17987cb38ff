-- ===== src/Idempotency.antt =====
-- Idempotent execution of commands (platform/idempotency), and the scan of a payload for a tenant's
-- identity (platform/tenant-context/src/command.ts).
pub mod Payload
pub mod Keys
pub mod Executor
pub mod Replay
pub mod Isolation
pub mod Effects
