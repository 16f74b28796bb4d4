-- ===== src/Orders.antt =====
-- Service orders: backend/app/services/catalog_service.py, dispute_service.py and
-- backend/app/tasks/marketplace_tasks.py.
mod Place
mod Work
mod Threads
mod Disputes
mod Tasks
mod Machine
mod Progress
mod Disputing
mod Resolving
mod Paying
mod Frozen
mod Calls
mod Runs
mod Completing
mod Late
mod Tests
