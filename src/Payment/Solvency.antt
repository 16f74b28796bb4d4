-- ===== src/Payment/Solvency.antt =====
-- Every money operation of backend/app/services/payment_service.py keeps the ledger.
pub mod Base
pub mod Funding
pub mod Release
pub mod Payout
pub mod Runs
