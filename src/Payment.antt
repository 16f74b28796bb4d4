-- ===== src/Payment.antt =====
-- The payments of backend/app/services/payment_service.py.
pub mod Settings
pub mod Fees
pub mod Fund
pub mod Confirm
pub mod Release
pub mod Refund
pub mod Payout
pub mod Calls
pub mod Samples
mod Tests
pub mod Callbacks
pub mod Opening
pub mod Ledger
pub mod Releasing
pub mod Solvency
pub mod Kept
pub mod Keeping
pub mod Histories
pub mod Unpaid
