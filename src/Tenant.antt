-- ===== src/Tenant.antt =====
-- The tenant aggregate of modules/identity-tenant/domain/tenant.ts.
pub mod Transitions
pub mod History
pub mod Store
pub mod Stored
pub mod Requests
pub mod Commands
pub mod Adds
pub mod Provisioned
pub mod Moved
