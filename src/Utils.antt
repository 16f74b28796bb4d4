-- ===== src/Utils.antt =====
-- Small parts that the services share (backend/app/services/base.py and backend/app/utils).
pub mod Paging
pub mod Phone
mod Tests
