-- ===== src/Operations.antt =====
-- apps/operations: the outbox that the order and payment services write to, its delivery, and the
-- audit chain.
pub mod Notifications
pub mod Audit
pub mod AuditChain
pub mod AuditTrail
pub mod AuditEvidence
pub mod Dispatch
pub mod Workers
pub mod Soundness
pub mod Delivery
pub mod Answers
pub mod Dispatching
pub mod Staff
pub mod StaffTrail
pub mod Tests
