-- ===== src/Context.antt =====
-- The trusted context of a request (platform/tenant-context): principals, tenant and platform contexts.
pub mod Principal
pub mod Resolver
pub mod Trusted
pub mod Nesting
