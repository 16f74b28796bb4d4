-- ===== src/Contracts.antt =====
-- Contracts and their milestones (backend/app/services/contract_service.py).
mod Milestones
mod Review
mod Money
mod Edits
mod Tests
