-- ===== src/Payments.antt =====
-- apps/payments: payment attempts, their provider and their reconciliation (services.py).
pub mod Provider
pub mod Json
pub mod Zarinpal
pub mod Rows
pub mod Attempts
pub mod Verification
pub mod Safety
pub mod Approvals
pub mod Approval
pub mod Tests
