-- ===== src/Examples.antt =====
-- Runs of the models on concrete data.
pub mod Arithmetic
pub mod Approvals
pub mod Tenants
pub mod Queue
pub mod Requests
pub mod Access
pub mod Texts
pub mod Records
pub mod Operations
pub mod Logins
pub mod Provisioning
