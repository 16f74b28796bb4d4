-- ===== src/Approval.antt =====
-- backend/app/services/payout_approval_service.py: releases that need a second admin.
mod Review
mod Totals
mod Threshold
mod Decisions
mod Calls
mod FourEyes
mod Tests
