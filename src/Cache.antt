-- ===== src/Cache.antt =====
-- The in-process cache (platform/tenant-context/src/memory-store.ts).
pub mod Store
pub mod Recency
