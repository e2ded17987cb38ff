-- ===== src/Outbox.antt =====
-- The transactional outbox (platform/outbox): the queue of events, leasing, the dispatcher and the
-- operator's handling of dead letters.
pub mod Queue
pub mod Order
pub mod Stream
pub mod Leases
pub mod Dispatcher
pub mod Delivery
pub mod Reports
pub mod Inbox
pub mod Operations
pub mod Resolved
