-- ===== src/Payments/Safety.antt =====
-- What holds of payments whatever the provider answers.
pub mod Writes
pub mod Evidence
pub mod Verifying
pub mod Authority
pub mod Truth
pub mod Stranded
