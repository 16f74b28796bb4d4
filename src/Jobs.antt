-- ===== src/Jobs.antt =====
-- Jobs, the proposals on them and the contracts that follow (backend/app/services/job_service.py,
-- proposal_service.py and contract_service.py).
pub mod Postings
pub mod Proposals
pub mod Responding
pub mod Calls
pub mod Single
pub mod Acceptance
pub mod Accepting
pub mod Requests
pub mod Runs
pub mod Contracting
pub mod Bids
mod Tests
