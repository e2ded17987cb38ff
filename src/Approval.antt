-- ===== src/Approval.antt =====
-- The maker-checker aggregate of modules/audit-governance/domain/approval.ts. The counts and versions
-- are natural numbers, so the tests `Number.isInteger` hold by their type, and an absent list of
-- approver requirements is the empty one.
pub mod Types
pub mod Decide
pub mod Decision
pub mod Invariant
pub mod Closing
pub mod Proposal
pub mod Lifecycle
pub mod Quorum
pub mod Commands
pub mod Authority
