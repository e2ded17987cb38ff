-- ===== src/Access.antt =====
-- Permissions and roles (modules/identity-tenant): the catalog, the authorizers and role administration.
pub mod Permissions
pub mod Grants
pub mod Authorizer
pub mod Roles
pub mod Administrators
pub mod Personas
pub mod Limits
